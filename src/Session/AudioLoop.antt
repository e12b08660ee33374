-- ===== src/Session/AudioLoop.antt =====
-- pkg/session/transcriber.go: the audio goroutine of a transcriber, from decoded frames to the
-- chunks queued for the service. `none` is a panic or a loop that does not end.
pub mod Bounded
pub mod Ending
pub mod Faithful
pub mod Sending
use nc_kyutai_live_transcrip.Prelude.{
  Bool, List, Option, [], if◌then◌else◌, leb, length, offer, some, suc, ℕ, ◌&&◌, ◌++◌, ◌+◌, ◌==◌,
  ◌>>=◌, ◌||◌, ◌∷◌,
}
use nc_kyutai_live_transcrip.Audio.Floats.{Floats}
use nc_kyutai_live_transcrip.Audio.ChunkBuffer.{ChunkBuffer, new_chunk_buffer, add, flush}
use nc_kyutai_live_transcrip.Audio.Pipeline.{Pipeline, process_frame}

-- The capacities of the channels that `addSpeaker` makes.
abbrev pub audio_input_cap : ℕ
audio_input_cap = 120

abbrev pub audio_out_cap : ℕ
audio_out_cap = 25

-- How a `select` of a send, `ctx.Done()` and a default goes at its k-th use in a call: whether the
-- context is done, and which case Go takes where both are ready.
pub record Selects : Type 0 where
  pub done : ℕ → Bool
  pub prefers_done : ℕ → Bool

-- The select takes `ctx.Done()`: the context is done, and the channel is full or the choice fell
-- so.
abbrev pub takes_done : Selects → ℕ → Bool → Bool
takes_done sel k full = sel.done k && (full || sel.prefers_done k)

abbrev pub later : Selects → Selects
later sel = record { done = λ k. sel.done (suc k); prefers_done = λ k. sel.prefers_done (suc k) }

-- What `AddAudioFrame` returns: a nil error, or one of its two errors.
pub data AddResult : Type 0 where
  added context_cancelled channel_full : AddResult

module _ {ℓ} {A : Type ℓ} where
  -- `enqueueAudioChunks` on the output channel
  unfoldable pub enqueue_audio_chunks : Selects → List (List A) → List (List A) → List (List A)
  enqueue_audio_chunks sel [] out = out
  enqueue_audio_chunks sel (chunk ∷ chunks) out =
      let rest = enqueue_audio_chunks (later sel) chunks (offer audio_out_cap out chunk) in
      if takes_done sel 0 (leb audio_out_cap (length out)) then out else rest

  -- The send of `flushAudioCacheTail`
  unfoldable pub send_tail : Selects → List A → List (List A) → List (List A)
  send_tail sel tail out =
      if (length tail == 0) || takes_done sel 0 (leb audio_out_cap (length out))
      then out
      else offer audio_out_cap out tail

  -- `AddAudioFrame` on the input channel, given whether the context is done at its first line.
  unfoldable pub add_audio_frame :
      Bool → Selects → List A → List (List A) → List (List A) × AddResult
  add_audio_frame cancelled sel frame queue =
      let full = leb audio_input_cap (length queue) in
      if cancelled || takes_done sel 0 full
      then (queue, context_cancelled)
      else if full
      then (queue, channel_full)
      else (queue ++ frame ∷ [], added)

module _ (F : Floats) where
  open F use {F32}

  pub record AudioLoop : Type 0 where
    pub audio_pipe : Pipeline F
    pub audio_cache : ChunkBuffer F32
    pub audio_input_ch : List (List F32)
    pub audio_out_ch : List (List F32)
    pub frame_count : ℕ

  -- The end of `processInputFrame`: the chunks of the resampled frame are queued.
  unfoldable pub buffer_and_enqueue : Selects → List F32 → AudioLoop → Option AudioLoop
  buffer_and_enqueue sel resampled s = add s.audio_cache resampled >>= λ r.
      some
        (record s { audio_cache = r.0; audio_out_ch = enqueue_audio_chunks sel r.1 s.audio_out_ch })

  -- `processInputFrame`
  unfoldable pub process_input_frame : Selects → List F32 → AudioLoop → Option AudioLoop
  process_input_frame sel [] s = some s
  process_input_frame sel (x ∷ xs) s = do
    let counted = record s { frame_count = s.frame_count + 1 }
    resampled ← process_frame F s.audio_pipe (x ∷ xs)
    buffer_and_enqueue sel resampled counted

  -- Frames in turn, each with its selects: rounds of `processAudioLoop`, or of `drainAudioInput`.
  unfoldable pub process_frames : (ℕ → Selects) → List (List F32) → AudioLoop → Option AudioLoop
  process_frames sels [] s = some s
  process_frames sels (frame ∷ frames) s = do
    s' ← process_input_frame (sels 0) frame s
    process_frames (λ k. sels (suc k)) frames s'

  -- `drainAudioInput`: the frames queued at cancellation.
  unfoldable pub drain_audio_input : (ℕ → Selects) → AudioLoop → Option AudioLoop
  unfolding process_frames
  drain_audio_input sels s = process_frames sels s.audio_input_ch (record s { audio_input_ch = [] })

  -- `flushAudioCacheTail`
  unfoldable pub flush_audio_cache_tail : Selects → AudioLoop → AudioLoop
  flush_audio_cache_tail sel s =
      let (cache, tail) = flush s.audio_cache in
      record s { audio_cache = cache; audio_out_ch = send_tail sel tail s.audio_out_ch }

  -- The case `ctx.Done()` of `processAudioLoop`
  unfoldable pub finish : (ℕ → Selects) → Selects → AudioLoop → Option AudioLoop
  finish sels sel s = do s' ← drain_audio_input sels s; some (flush_audio_cache_tail sel s')
