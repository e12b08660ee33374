-- ===== src/Session/Voice/Ordered.antt =====
-- The audio of a speaker reaches the service in the order in which it was heard, and the
-- transcriber's end is final.
use nc_kyutai_live_transcrip.Prelude.{
  LeavesOut, LeavesOut-append, LeavesOut-between, LeavesOut-more, LeavesOut-refl, LeavesOut-trans,
  List, [], ap, append_assoc, refl, some, ◌++◌, ◌∷◌, ◌≡◌,
}
use nc_kyutai_live_transcrip.Audio.Floats.{Floats}
use nc_kyutai_live_transcrip.Session.AudioLoop.Bounded.{IsSound}
use nc_kyutai_live_transcrip.Session.Voice.{Voice, VoiceEvent, voice_run}
use nc_kyutai_live_transcrip.Session.Voice.Settled.{Settled}
use nc_kyutai_live_transcrip.Session.Voice.Keeps.{SilentIn, SilentIn-trans}
use nc_kyutai_live_transcrip.Session.Voice.Turns.{passed, all_arriving, arriving}
use nc_kyutai_live_transcrip.Session.Voice.Steps.{still, voice_step-Passes}

module _ (F : Floats) where
  -- From a sound state of the audio goroutine, however the goroutines of a transcriber, its
  -- callback and its shutdown interleave, and whatever the channels and the selects drop: no step
  -- panics or loops, and the samples given to the service so far, followed by those on their way to
  -- it, are what was there before followed by what was heard since, at the service's rate, in the
  -- order in which it was heard, less the samples left out. So no sample is sent twice or overtakes
  -- another.
  pub voice_run-ordered :
      (es : List (VoiceEvent F)) (v : Voice F)
      → IsSound F v.audio
      → (last : Voice F) × (voice_run F es v ≡ some last)
        × LeavesOut (passed F last) (passed F v ++ all_arriving F v.audio.audio_pipe es)
  unfolding voice_run
  voice_run-ordered [] v s = (v, refl, LeavesOut-more (passed F v) [])
  voice_run-ordered (e ∷ es) v s =
      let (v', done, passes, kept) = voice_step-Passes F e v s in
      let (last, rest, order) = voice_run-ordered es v' passes.sound in
      let new = arriving F v.audio.audio_pipe e in
      let later = all_arriving F v.audio.audio_pipe es in
      (
        last,
        rw done rest,
        LeavesOut-trans
            (LeavesOut-between refl order
              (ap (λ p. passed F v' ++ all_arriving F p es) passes.same_pipe))
            (LeavesOut-between refl (LeavesOut-append passes.order (LeavesOut-refl later))
              (append_assoc (passed F v) new later)),
      )

  -- From a sound state of the audio goroutine and a settled one of the transcriber, as that of a
  -- new speaker is, whatever steps its goroutines take, in whatever order, and whenever the context
  -- is cancelled: the transcriber stays settled. Once the drain has begun the context is done; and
  -- once the goroutine of `run` has ended, no text is pending, the client of the service has no
  -- connection, even where the first dial still returns, and nothing more is sent or broadcast.
  pub voice_run-Settled :
      (es : List (VoiceEvent F)) (v : Voice F)
      → IsSound F v.audio
      → Settled F v
      → (last : Voice F) × (voice_run F es v ≡ some last)
        × Settled F last
        × SilentIn F v.phase v last
  unfolding voice_run
  voice_run-Settled [] v s h = (v, refl, h, (still F v).silent)
  voice_run-Settled (e ∷ es) v s h =
      let (v', done, passes, kept) = voice_step-Passes F e v s in
      let (last, rest, settled, silent) = voice_run-Settled es v' passes.sound (kept.settled h) in
      (last, rw done rest, settled, SilentIn-trans F v.phase v v' last kept.silent silent)
