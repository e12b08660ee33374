-- ===== src/Session/Voice/Spoken.antt =====
-- The captions of a speaker are those of what the service heard.
use mathlib.Core.Path.{subst}
use mathlib.Core.Option.{some-injective, none-ne-some}
use nc_kyutai_live_transcrip.Prelude.{
  Bool-cases, LeavesOut, List, Option, [], ap, append-nil, append_assoc, inl, inr, none, not, refl,
  some, sym, true, ℕ, ◌&&◌, ◌++◌, ◌>>=◌, ◌∙◌, ◌∷◌, ◌≡◌,
}
use nc_kyutai_live_transcrip.Audio.Floats.{Floats}
use nc_kyutai_live_transcrip.Modal.Client.{Transcript, close}
use nc_kyutai_live_transcrip.Session.Transcriber.{Caption, CaptionEvent, tick, ending, caption_step}
use nc_kyutai_live_transcrip.Session.Transcriber.Captions.{
  segments, finals, finals-append, captions_refine,
}
use nc_kyutai_live_transcrip.Session.Run.{run_step}
use nc_kyutai_live_transcrip.Session.AudioLoop.{Selects, process_input_frame, finish}
use nc_kyutai_live_transcrip.Session.AudioLoop.Bounded.{IsSound}
use nc_kyutai_live_transcrip.Session.Voice.{
  Phase, running, draining, ended, Turn, at_tick, at_transcript, at_error, at_chunk, Voice,
  VoiceEvent, hears, resamples, turns, service, cancels, audio_ends, drains, ends, turn, take_chunk,
  take_frame, end_audio, begin_drain, end_drain, voice_step, voice_run,
}
use nc_kyutai_live_transcrip.Session.Voice.Steps.{voice_step-Passes}
use nc_kyutai_live_transcrip.Session.Voice.Says.{
  Says, Says-nothing, Says-one, on_transcript-Says, on_error-Says, service-Says, brings,
  transcripts_in, Says-trans,
}

bind_some {ℓ κ} :
    {A : Type ℓ} {B : Type κ} (o : Option A) (f : A → B) (b : B)
    → (o >>= λ a. some (f a)) ≡ some b
    → (a : A) × (f a ≡ b)
bind_some none f b h = absurd (none-ne-some b h)
bind_some (some a) f b h = (a, some-injective (f a) b h)

module _ (F : Floats) where
  -- What an event brings for the captions
  abbrev pub told : VoiceEvent F → List Transcript
  told (service e) = brings e
  told _ = []

  abbrev pub all_told : List (VoiceEvent F) → List Transcript
  all_told [] = []
  all_told (e ∷ es) = told e ++ all_told es

  record Speaks (new : List Transcript) (v v' : Voice F) : Type 0 where
    out : List Caption
    said : v'.said ≡ v.said ++ out
    says : Says new v.system.runner out v'.system.runner

  Speaks-nothing :
      (v v' : Voice F)
      → v'.said ≡ v.said
      → v'.system.runner.captioner ≡ v.system.runner.captioner
      → v'.system.runner.client.transcript_ch ≡ v.system.runner.client.transcript_ch
      → Speaks [] v v'
  Speaks-nothing v v' said captioner waiting = record {
    out = [];
    said = said ∙ sym (append-nil v.said);
    says = Says-nothing v.system.runner v'.system.runner captioner waiting;
  }

  take_chunk-Speaks :
      (chunks : List (List F.F32)) (v : Voice F) → Speaks [] v (take_chunk F chunks v)
  take_chunk-Speaks [] v = Speaks-nothing v v refl refl refl
  take_chunk-Speaks (chunk ∷ rest) v = Speaks-nothing v _ refl refl refl

  turn-Speaks :
      (phase : Phase) (now : ℕ) (t : Turn) (v : Voice F) → Speaks [] v (turn F phase now t v)
  unfolding turn run_step caption_step
  turn-Speaks running now at_tick v = record {
    out = (caption_step now tick v.system.runner.captioner).1;
    said = refl;
    says = Says-one now tick v.system.runner _ refl refl;
  }
  turn-Speaks running now at_transcript v = record {
    out = _;
    said = refl;
    says = on_transcript-Says F.F32 now v.system.runner.client.transcript_ch v.system.runner refl;
  }
  turn-Speaks running now (at_error dialled) v = record {
    out = _;
    said = refl;
    says =
        on_error-Says F.F32 now (dialled && not v.cancelled) v.system.runner.client.err_ch
          v.system.runner;
  }
  turn-Speaks running now at_chunk v = take_chunk-Speaks v.audio.audio_out_ch v
  turn-Speaks draining now at_tick v = Speaks-nothing v v refl refl refl
  turn-Speaks draining now at_transcript v = record {
    out = _;
    said = refl;
    says = on_transcript-Says F.F32 now v.system.runner.client.transcript_ch v.system.runner refl;
  }
  turn-Speaks draining now (at_error dialled) v = Speaks-nothing v _ refl refl refl
  turn-Speaks draining now at_chunk v = take_chunk-Speaks v.audio.audio_out_ch v
  turn-Speaks ended now t v = Speaks-nothing v v refl refl refl

  begin_drain-Speaks : (phase : Phase) (v : Voice F) → Speaks [] v (begin_drain F phase v)
  begin_drain-Speaks running v = elim (Bool-cases v.cancelled) [
    | inl c ↦ Speaks-nothing v _ (rw c refl) (rw c refl) (rw c refl)
    | inr c ↦ Speaks-nothing v _ (rw c refl) (rw c refl) (rw c refl)
  ]
  begin_drain-Speaks draining v = Speaks-nothing v v refl refl refl
  begin_drain-Speaks ended v = Speaks-nothing v v refl refl refl

  end_drain-Speaks : (phase : Phase) (now : ℕ) (v : Voice F) → Speaks [] v (end_drain F phase now v)
  unfolding close caption_step
  end_drain-Speaks running now v = Speaks-nothing v v refl refl refl
  end_drain-Speaks draining now v = record {
    out = (caption_step now ending v.system.runner.captioner).1;
    said = refl;
    says = Says-one now ending v.system.runner _ refl refl;
  }
  end_drain-Speaks ended now v = Speaks-nothing v v refl refl refl

  take_frame-Speaks :
      (sel : Selects) (frames : List (List F.F32)) (v v' : Voice F)
      → take_frame F sel frames v ≡ some v'
      → Speaks [] v v'
  take_frame-Speaks sel [] v v' h =
      subst (Speaks [] v) (some-injective v v' h) (Speaks-nothing v v refl refl refl)
  take_frame-Speaks sel (frame ∷ rest) v v' h =
      let (a, same) =
        bind_some (process_input_frame F sel frame (record (v.audio) { audio_input_ch = rest })) _
          v' h in
      subst (Speaks [] v) same (Speaks-nothing v _ refl refl refl)

  end_audio-Speaks :
      (sels : ℕ → Selects) (sel : Selects) (v v' : Voice F)
      → end_audio F sels sel v ≡ some v'
      → Speaks [] v v'
  end_audio-Speaks sels sel v v' h =
      let (a, same) = bind_some (finish F sels sel v.audio) _ v' h in
      subst (Speaks [] v) same (Speaks-nothing v _ refl refl refl)

  step-Speaks :
      (e : VoiceEvent F) (v v' : Voice F) → voice_step F e v ≡ some v' → Speaks (told e) v v'
  unfolding voice_step
  step-Speaks (hears frame) v v' h =
      subst (Speaks [] v) (some-injective _ v' h) (Speaks-nothing v _ refl refl refl)
  step-Speaks (resamples sel) v v' h = elim (Bool-cases v.audio_done) [
    | inl over ↦
        subst (Speaks [] v) (some-injective v v' (simp (over) at h))
          (Speaks-nothing v v refl refl refl)
    | inr on ↦ take_frame-Speaks sel v.audio.audio_input_ch v v' (simp (on) at h)
  ]
  step-Speaks (turns now t) v v' h =
      subst (Speaks [] v) (some-injective _ v' h) (turn-Speaks v.phase now t v)
  step-Speaks (service e) v v' h = subst (Speaks (brings e) v) (some-injective _ v' h) (record {
    out = [];
    said = sym (append-nil v.said);
    says = service-Says F.F32 v.cancelled e v.system;
  })
  step-Speaks cancels v v' h =
      subst (Speaks [] v) (some-injective _ v' h) (Speaks-nothing v _ refl refl refl)
  step-Speaks (audio_ends sels sel) v v' h = elim (Bool-cases (v.cancelled && not v.audio_done)) [
    | inl over ↦ end_audio-Speaks sels sel v v' (simp (over) at h)
    | inr on ↦
        subst (Speaks [] v) (some-injective v v' (simp (on) at h))
          (Speaks-nothing v v refl refl refl)
  ]
  step-Speaks drains v v' h =
      subst (Speaks [] v) (some-injective _ v' h) (begin_drain-Speaks v.phase v)
  step-Speaks (ends now) v v' h =
      subst (Speaks [] v) (some-injective _ v' h) (end_drain-Speaks v.phase now v)

  run-Speaks :
      (es : List (VoiceEvent F)) (v : Voice F)
      → IsSound F v.audio
      → (last : Voice F) × (voice_run F es v ≡ some last) × Speaks (all_told es) v last
  unfolding voice_run
  run-Speaks [] v s = (v, refl, Speaks-nothing v v refl refl refl)
  run-Speaks (e ∷ es) v s =
      let (v', done, passes, kept) = voice_step-Passes F e v s in
      let (last, rest, b) = run-Speaks es v' passes.sound in
      let a = step-Speaks e v v' done in
      (
        last,
        rw done rest,
        record {
          out = a.out ++ b.out;
          said = b.said ∙ ap (λ l. l ++ b.out) a.said ∙ append_assoc v.said a.out b.out;
          says =
              Says-trans (told e) (all_told es) a.out b.out v.system.runner v'.system.runner
                last.system.runner a.says b.says;
        },
      )

  -- However the goroutines of a transcriber interleave, up to its end, and whatever the channels
  -- drop: the final captions that were broadcast are the utterances into which the specification
  -- cuts some caption events, behind the text that was pending, and the pending text is the
  -- unfinished one; and the transcripts of these events, followed by those that still wait, are
  -- those that waited and those that the service sent since, in the order in which it sent them,
  -- less the ones left out.
  pub voice_run-spoken :
      (es : List (VoiceEvent F)) (v : Voice F)
      → IsSound F v.audio
      → v.system.runner.captioner.can_broadcast ≡ true
      → let r = v.system.runner in
        (last : Voice F) × (events : List (ℕ × CaptionEvent)) × (voice_run F es v ≡ some last)
        × (finals last.said ≡ finals v.said ++ (segments r.captioner.pending_text events).1)
        × (last.system.runner.captioner.pending_text ≡ (segments r.captioner.pending_text events).0)
        × LeavesOut
            (transcripts_in events ++ last.system.runner.client.transcript_ch)
            (r.client.transcript_ch ++ all_told es)
  voice_run-spoken es v s can =
      let (last, done, speaks) = run-Speaks es v s in
      let c = v.system.runner.captioner in
      let (pending, said) = captions_refine c speaks.says.events can in
      (
        last,
        speaks.says.events,
        done,
        ap finals speaks.said
            ∙ finals-append v.said speaks.out
            ∙ ap (λ l. finals v.said ++ finals l) speaks.says.captions
            ∙ ap (λ l. finals v.said ++ l) said,
        ap (λ d. d.pending_text) speaks.says.captioner ∙ pending,
        speaks.says.order,
      )
