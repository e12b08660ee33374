-- ===== src/Session/Voice/Steps.antt =====
-- What each step of a transcriber does to the audio on its way, and what it keeps.
use nc_kyutai_live_transcrip.Prelude.{
  Bool-cases, LeavesOut-append, LeavesOut-between, LeavesOut-offer, LeavesOut-refl, List, [], ap,
  append-nil, append_assoc, concat, inl, inr, not, refl, some, sym, true, ℕ, ◌&&◌, ◌++◌, ◌∙◌, ◌∷◌,
  ◌≡◌,
}
use nc_kyutai_live_transcrip.Audio.Floats.{Floats}
use nc_kyutai_live_transcrip.Session.AudioLoop.{Selects, audio_input_cap}
use nc_kyutai_live_transcrip.Session.AudioLoop.Bounded.{IsSound}
use nc_kyutai_live_transcrip.Session.Voice.{
  Voice, VoiceEvent, hears, resamples, turns, service, cancels, audio_ends, drains, ends, turn,
  on_audio, end_audio, take_frame, begin_drain, end_drain, voice_step,
}
use nc_kyutai_live_transcrip.Session.Voice.Keeps.{
  Keeps, Keeps-same, Keeps-turn, Keeps-begin_drain, Keeps-end_drain, Keeps-cancels, Keeps-service,
}
use nc_kyutai_live_transcrip.Session.Voice.Audio.{
  as_heard, all_heard, all_heard-append, all_heard-order, held, frame-Took, finish-Took,
}
use nc_kyutai_live_transcrip.Session.Voice.Turns.{
  passed, arriving, Passes, Passes-same, turn-Passes, begin_drain-Passes, end_drain-Passes,
}

module _ (F : Floats) where
  open F use {F32}

  on_audio-Passes :
      (frame : List F32) (v : Voice F)
      → IsSound F v.audio
      → Passes F (as_heard F v.audio.audio_pipe frame) v (on_audio F frame v)
  on_audio-Passes frame v s =
      let p = v.audio.audio_pipe in
      let queue = v.audio.audio_input_ch in
      let before = concat v.sent in
      record {
        order =
            LeavesOut-between refl
              (LeavesOut-append (LeavesOut-refl before) (
                LeavesOut-append (LeavesOut-refl (held F v.audio))
                  (all_heard-order F p (LeavesOut-offer audio_input_cap queue frame))))
              (ap (λ l. before ++ (held F v.audio ++ l))
                  (all_heard-append F p queue (frame ∷ [])
                    ∙ ap (λ l. all_heard F p queue ++ l) (append-nil (as_heard F p frame)))
                ∙ ap (λ l. before ++ l)
                    (sym (append_assoc (held F v.audio) (all_heard F p queue) (as_heard F p frame)))
                ∙ sym (
                    append_assoc before (held F v.audio ++ all_heard F p queue)
                      (as_heard F p frame)));
        same_pipe = refl;
        sound = record { queued = s.queued; positive = s.positive; short = s.short };
      }

  pub still : (v : Voice F) → Keeps F v v
  still v = Keeps-same F v v refl refl refl (λ h. h)

  take_frame-Passes :
      (sel : Selects) (frames : List (List F32)) (v : Voice F)
      → IsSound F v.audio
      → v.audio.audio_input_ch ≡ frames
      → (v' : Voice F) × (take_frame F sel frames v ≡ some v') × Passes F [] v v' × Keeps F v v'
  take_frame-Passes sel [] v s e = (v, refl, Passes-same F v v s refl refl, still v)
  take_frame-Passes sel (frame ∷ rest) v s e =
      let (a, f, took) =
        frame-Took F sel frame (record (v.audio) { audio_input_ch = rest })
          (record { queued = s.queued; positive = s.positive; short = s.short }) in
      let p = v.audio.audio_pipe in
      let before = concat v.sent in
      (
        record v { audio = a },
        rw f refl,
        record {
          order =
              LeavesOut-between (rw (took.same_pipe, took.same_input) refl)
                (LeavesOut-append (LeavesOut-refl before)
                  (LeavesOut-append took.order (LeavesOut-refl (all_heard F p rest))))
                (ap (λ l. before ++ l)
                    (append_assoc (held F v.audio) (as_heard F p frame) (all_heard F p rest))
                  ∙ ap (λ q. before ++ (held F v.audio ++ all_heard F p q)) (sym e)
                  ∙ sym (append-nil (passed F v)));
          same_pipe = took.same_pipe;
          sound = took.sound;
        },
        Keeps-same F v _ refl refl refl (λ h. h),
      )

  end_audio-Passes :
      (sels : ℕ → Selects) (sel : Selects) (v : Voice F)
      → IsSound F v.audio
      → (v' : Voice F) × (end_audio F sels sel v ≡ some v') × Passes F [] v v' × Keeps F v v'
  end_audio-Passes sels sel v s =
      let (a, f, order, pipe, input, sound) = finish-Took F sels sel v.audio s in
      (
        record v { audio = a; audio_done = true },
        rw f refl,
        record {
          order =
              LeavesOut-between (rw (pipe, input, append-nil (held F a)) refl)
                (LeavesOut-append (LeavesOut-refl (concat v.sent)) order)
                (sym (append-nil (passed F v)));
          same_pipe = pipe;
          sound = sound;
        },
        Keeps-same F v _ refl refl refl (λ h. h),
      )

  pub voice_step-Passes :
      (e : VoiceEvent F) (v : Voice F)
      → IsSound F v.audio
      → (v' : Voice F) × (voice_step F e v ≡ some v')
        × Passes F (arriving F v.audio.audio_pipe e) v v'
        × Keeps F v v'
  unfolding voice_step
  voice_step-Passes (hears frame) v s = (
    on_audio F frame v,
    refl,
    on_audio-Passes frame v s,
    Keeps-same F v _ refl refl refl (λ h. h),
  )
  voice_step-Passes (resamples sel) v s = elim (Bool-cases v.audio_done) [
    | inl over ↦ (v, rw over refl, Passes-same F v v s refl refl, still v)
    | inr on ↦
        let (v', e, passes, kept) = take_frame-Passes sel v.audio.audio_input_ch v s refl in
        (v', simp (on) e, passes, kept)
  ]
  voice_step-Passes (turns now t) v s =
      (turn F v.phase now t v, refl, turn-Passes F v.phase now t v s, Keeps-turn F now t v)
  voice_step-Passes (service e) v s = (_, refl, Passes-same F v _ s refl refl, Keeps-service F e v)
  voice_step-Passes cancels v s = (_, refl, Passes-same F v _ s refl refl, Keeps-cancels F v)
  voice_step-Passes (audio_ends sels sel) v s =
      elim (Bool-cases (v.cancelled && not v.audio_done)) [
        | inl over ↦
            let (v', e, passes, kept) = end_audio-Passes sels sel v s in
            (v', rw over e, passes, kept)
        | inr on ↦ (v, rw on refl, Passes-same F v v s refl refl, still v)
      ]
  voice_step-Passes drains v s =
      (begin_drain F v.phase v, refl, begin_drain-Passes F v.phase v s, Keeps-begin_drain F v)
  voice_step-Passes (ends now) v s =
      (end_drain F v.phase now v, refl, end_drain-Passes F v.phase now v s, Keeps-end_drain F now v)
