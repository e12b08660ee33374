-- ===== src/Session/Voice/Turns.antt =====
-- What a turn of a transcriber's `run`, and its drain, do to the audio on its way.
use nc_kyutai_live_transcrip.Prelude.{
  Bool, Bool-cases, LeavesOut, LeavesOut-append, LeavesOut-between, LeavesOut-concat,
  LeavesOut-more, LeavesOut-none, LeavesOut-refl, List, [], ap, append-nil, append_assoc, arith,
  concat, concat-append, inl, inr, length, not, refl, sym, ℕ, ◌&&◌, ◌++◌, ◌==◌, ◌||◌, ◌∙◌, ◌∷◌, ◌≡◌,
}
use nc_kyutai_live_transcrip.Audio.Floats.{Floats}
use nc_kyutai_live_transcrip.Audio.Pipeline.{Pipeline}
use nc_kyutai_live_transcrip.Modal.Client.{Client, ModalError, Transcript, send_audio, is_connected}
use nc_kyutai_live_transcrip.Session.Run.{
  Runner, run_step, on_transcript, on_error, on_modal_error, send_audio_chunk,
}
use nc_kyutai_live_transcrip.Session.AudioLoop.Bounded.{IsSound}
use nc_kyutai_live_transcrip.Session.Voice.{
  Phase, running, draining, ended, Turn, at_tick, at_transcript, at_error, at_chunk, Voice,
  VoiceEvent, hears, turn, take_chunk, begin_drain, end_drain,
}
use nc_kyutai_live_transcrip.Session.Voice.Audio.{as_heard, all_heard, held}

send_audio_chunk-order {ℓ} :
    {A : Type ℓ} (chunk : List A) (count : ℕ) (client : Client)
    → LeavesOut (send_audio_chunk chunk count client).1 (chunk ∷ [])
unfolding send_audio_chunk send_audio
send_audio_chunk-order chunk count client =
    elim (Bool-cases (length chunk == 0 || not (is_connected client))) [
      | inl silent ↦ rw silent (LeavesOut-none (chunk ∷ []))
      | inr live ↦ rw live (elim (Bool-cases (client.has_conn && client.connected)) [
        | inl up ↦ rw up (LeavesOut-refl (chunk ∷ []))
        | inr down ↦ rw down (LeavesOut-none (chunk ∷ []))
      ])
    ]

on_transcript-unsent {ℓ} :
    {A : Type ℓ} (now : ℕ) (trs : List Transcript) (r : Runner)
    → (on_transcript {A = A} now trs r).1.sent ≡ []
unfolding on_transcript
on_transcript-unsent now [] r = refl
on_transcript-unsent now (tr ∷ rest) r = refl

on_error-unsent {ℓ} :
    {A : Type ℓ} (now : ℕ) (dialled : Bool) (errors : List ModalError) (r : Runner)
    → (on_error {A = A} now dialled errors r).1.sent ≡ []
unfolding on_error on_modal_error
on_error-unsent now dialled [] r = refl
on_error-unsent now dialled (e ∷ rest) r = ground arith

module _ (F : Floats) where
  open F use {F32}

  -- The audio that was given to the service, and that which is on its way to it
  abbrev pub passed : Voice F → List F32
  passed v =
      concat v.sent ++ (held F v.audio ++ all_heard F v.audio.audio_pipe v.audio.audio_input_ch)

  -- What an event, or all events, bring of audio, at the service's rate.
  abbrev pub arriving : Pipeline F → VoiceEvent F → List F32
  arriving p (hears frame) = as_heard F p frame
  arriving p _ = []

  abbrev pub all_arriving : Pipeline F → List (VoiceEvent F) → List F32
  all_arriving p [] = []
  all_arriving p (e ∷ es) = arriving p e ++ all_arriving p es

  -- Where an event leads from a voice, and that what it brings goes behind the audio that passes.
  pub record Passes (new : List F32) (v : Voice F) (v' : Voice F) : Type 0 where
    pub order : LeavesOut (passed v') (passed v ++ new)
    pub same_pipe : v'.audio.audio_pipe ≡ v.audio.audio_pipe
    pub sound : IsSound F v'.audio

  pub Passes-same :
      (v v' : Voice F) → IsSound F v.audio → v'.audio ≡ v.audio → v'.sent ≡ v.sent → Passes [] v v'
  Passes-same v v' sound same_audio same_sent = record {
    order = rw (same_audio, same_sent) (LeavesOut-more (passed v) []);
    same_pipe = rw same_audio refl;
    sound = rw same_audio sound;
  }

  take_chunk-Passes :
      (chunks : List (List F32)) (v : Voice F)
      → IsSound F v.audio
      → v.audio.audio_out_ch ≡ chunks
      → Passes [] v (take_chunk F chunks v)
  take_chunk-Passes [] v sound e = Passes-same v v sound refl refl
  take_chunk-Passes (chunk ∷ rest) v sound e =
      let r = v.system.runner in
      let out = (send_audio_chunk chunk r.audio_chunk_count r.client).1 in
      let before = concat v.sent in
      let buffer = v.audio.audio_cache.buffer in
      let waiting = all_heard F v.audio.audio_pipe v.audio.audio_input_ch in
      let behind = (concat rest ++ buffer) ++ waiting in
      let sent_first : before ++ (chunk ++ behind) ≡ passed v =
        ap (λ l. before ++ l)
          (sym (append_assoc chunk (concat rest ++ buffer) waiting)
            ∙ ap (λ l. l ++ waiting) (sym (append_assoc chunk (concat rest) buffer))
            ∙ ap (λ l. (concat l ++ buffer) ++ waiting) (sym e)) in
      let sent_order : LeavesOut (concat out) chunk =
        LeavesOut-between refl
          (LeavesOut-concat (send_audio_chunk-order chunk r.audio_chunk_count r.client))
          (append-nil chunk) in
      record {
        order =
            LeavesOut-between
              (ap (λ l. l ++ behind) (concat-append v.sent out)
                ∙ append_assoc before (concat out) behind)
              (LeavesOut-append (LeavesOut-refl before)
                (LeavesOut-append sent_order (LeavesOut-refl behind)))
              (sent_first ∙ sym (append-nil (passed v)));
        same_pipe = refl;
        sound = record {
          queued = omega (arith, ap length e, sound.queued);
          positive = sound.positive;
          short = sound.short;
        };
      }

  pub turn-Passes :
      (phase : Phase) (now : ℕ) (t : Turn) (v : Voice F)
      → IsSound F v.audio
      → Passes [] v (turn F phase now t v)
  unfolding turn run_step
  turn-Passes running now at_tick v s = Passes-same v _ s refl (append-nil v.sent)
  turn-Passes running now at_transcript v s = Passes-same v _ s refl (
      ap (λ l. v.sent ++ l)
        (on_transcript-unsent {A = F32} now v.system.runner.client.transcript_ch v.system.runner)
      ∙ append-nil v.sent)
  turn-Passes running now (at_error dialled) v s = Passes-same v _ s refl (
      ap (λ l. v.sent ++ l)
        (on_error-unsent {A = F32} now (dialled && not v.cancelled) v.system.runner.client.err_ch
          v.system.runner)
      ∙ append-nil v.sent)
  turn-Passes running now at_chunk v s = take_chunk-Passes v.audio.audio_out_ch v s refl
  turn-Passes draining now at_tick v s = Passes-same v v s refl refl
  turn-Passes draining now at_transcript v s = Passes-same v _ s refl (
      ap (λ l. v.sent ++ l)
        (on_transcript-unsent {A = F32} now v.system.runner.client.transcript_ch v.system.runner)
      ∙ append-nil v.sent)
  turn-Passes draining now (at_error dialled) v s = Passes-same v _ s refl refl
  turn-Passes draining now at_chunk v s = take_chunk-Passes v.audio.audio_out_ch v s refl
  turn-Passes ended now t v s = Passes-same v v s refl refl

  pub begin_drain-Passes :
      (phase : Phase) (v : Voice F) → IsSound F v.audio → Passes [] v (begin_drain F phase v)
  begin_drain-Passes running v s = elim (Bool-cases v.cancelled) [
    | inl c ↦ Passes-same v _ s (rw c refl) (rw c refl)
    | inr c ↦ Passes-same v _ s (rw c refl) (rw c refl)
  ]
  begin_drain-Passes draining v s = Passes-same v v s refl refl
  begin_drain-Passes ended v s = Passes-same v v s refl refl

  pub end_drain-Passes :
      (phase : Phase) (now : ℕ) (v : Voice F)
      → IsSound F v.audio
      → Passes [] v (end_drain F phase now v)
  end_drain-Passes running now v s = Passes-same v v s refl refl
  end_drain-Passes draining now v s = Passes-same v _ s refl refl
  end_drain-Passes ended now v s = Passes-same v v s refl refl
