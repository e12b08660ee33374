-- ===== src/Session/Transcriber.antt =====
-- pkg/session/transcriber.go: the caption side of a speaker's transcriber. A call of the
-- `broadcast` callback is an entry of the list that a method returns; times are milliseconds.
pub mod Captions
use Prim.Native.String
use nc_kyutai_live_transcrip.Prelude.{
  Bool, List, String, [], false, if◌then◌else◌, leb, not, true, ℕ, ◌&&◌, ◌++◌, ◌+◌, ◌||◌, ◌∷◌,
}
use nc_kyutai_live_transcrip.Modal.Client.{Transcript, is_empty}

-- The fields of `Transcriber` that captions depend on; `can_broadcast` is `broadcast != nil`.
pub record Captioner : Type 0 where
  pub can_broadcast : Bool
  pub pending_text : String
  pub last_broadcast : ℕ
  pub broadcast_dirty : Bool

-- A call of `broadcast(text, final)`.
pub record Caption : Type 0 where
  pub text : String
  pub final : Bool

abbrev pub broadcast_min_interval : ℕ
broadcast_min_interval = 80

-- The end of an utterance, as `handleTranscript` treats it.
unfoldable pub finalize : ℕ → Captioner → Captioner × List Caption
finalize now t =
    if is_empty t.pending_text
    then (t, [])
    else if t.can_broadcast
    then (
      record t { pending_text = ""; last_broadcast = now; broadcast_dirty = false },
      record { text = t.pending_text; final = true } ∷ [],
    )
    else (record t { pending_text = ""; broadcast_dirty = false }, [])

-- A token, as `handleTranscript` treats it.
unfoldable pub accumulate : ℕ → String → Captioner → Captioner × List Caption
accumulate now text t =
    let longer = String.◌++◌ t.pending_text text in
    if is_empty text
    then (t, [])
    else if t.can_broadcast && leb (t.last_broadcast + broadcast_min_interval) now
    then (
      record t { pending_text = longer; last_broadcast = now; broadcast_dirty = false },
      record { text = longer; final = false } ∷ [],
    )
    else (record t { pending_text = longer; broadcast_dirty = true }, [])

-- `handleTranscript`; each branch reads the clock once at most, and `now` is what it reads.
unfoldable pub handle_transcript : ℕ → Transcript → Captioner → Captioner × List Caption
unfolding finalize accumulate
handle_transcript now transcript t =
    if transcript.final then finalize now t else accumulate now transcript.text t

-- `flushPendingBroadcast`
unfoldable pub flush_pending_broadcast : ℕ → Captioner → Captioner × List Caption
flush_pending_broadcast now t =
    if t.broadcast_dirty && (t.can_broadcast && not (is_empty t.pending_text))
    then (
      record t { last_broadcast = now; broadcast_dirty = false },
      record { text = t.pending_text; final = false } ∷ [],
    )
    else (t, [])

-- `flushPendingFinal`
unfoldable pub flush_pending_final : ℕ → Captioner → Captioner × List Caption
flush_pending_final now t = if is_empty t.pending_text || not t.can_broadcast then (t, []) else (
  record t { pending_text = ""; last_broadcast = now; broadcast_dirty = false },
  record { text = t.pending_text; final = true } ∷ [],
)

-- What the loop of `run` does with captions: a transcript, the ticker, and a normal close or the
-- end of the shutdown.
pub data CaptionEvent : Type 0 where
  transcript : Transcript → CaptionEvent
  tick : CaptionEvent
  ending : CaptionEvent

unfoldable pub caption_step : ℕ → CaptionEvent → Captioner → Captioner × List Caption
unfolding handle_transcript flush_pending_broadcast flush_pending_final
caption_step now (transcript tr) t = handle_transcript now tr t
caption_step now tick t = flush_pending_broadcast now t
caption_step now ending t = flush_pending_final now t

-- A sequence of events, each with the time at which it is handled.
unfoldable pub caption_run : Captioner → List (ℕ × CaptionEvent) → Captioner × List Caption
caption_run t [] = (t, [])
caption_run t ((now, e) ∷ es) =
    let (t', out) = caption_step now e t in
    let (last, more) = caption_run t' es in (last, out ++ more)

-- The state of a new transcriber: the zero time is long past.
abbrev pub new_captioner : Captioner
new_captioner = record {
  can_broadcast = true;
  pending_text = "";
  last_broadcast = 0;
  broadcast_dirty = false;
}
