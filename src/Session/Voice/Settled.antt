-- ===== src/Session/Voice/Settled.antt =====
-- What holds of a transcriber in each phase of its life.
use nc_kyutai_live_transcrip.Prelude.{
  Bool, List, Option, Option-cases, [], arith, false, if◌then◌else◌, inl, inr, none, not, refl,
  some, str_eq_iff, true, ℕ, ◌&&◌, ◌∙◌, ◌∷◌, ◌≡◌,
}
use nc_kyutai_live_transcrip.Audio.Floats.{Floats}
use nc_kyutai_live_transcrip.Json.{Fields, get_field, string_or_empty}
use nc_kyutai_live_transcrip.Modal.Client.{
  token_or_end, Client, ModalError, Transcript, connect, close, report_read_error,
  mark_disconnected, on_text,
}
use nc_kyutai_live_transcrip.Session.Transcriber.{
  Captioner, handle_transcript, flush_pending_broadcast, flush_pending_final, finalize, accumulate,
}
use nc_kyutai_live_transcrip.Session.Run.{
  Runner, run_step, on_transcript, on_error, on_modal_error, try_reconnect,
}
use nc_kyutai_live_transcrip.Session.Run.System.{System, system_step}
use nc_kyutai_live_transcrip.Session.Voice.{
  Phase, running, draining, ended, Turn, at_tick, at_transcript, at_error, at_chunk, ServiceEvent,
  connects, reports, marks, hears_back, service_event, Voice, turn, take_chunk, begin_drain,
  end_drain,
}

-- The captions are broadcast in every phase; from the drain on the context is done; and at the end
-- no text is pending and the client of the service has no connection.
abbrev pub SettledIn : Phase → Bool → Runner → Type 0
SettledIn running cancelled r = r.captioner.can_broadcast ≡ true
SettledIn draining cancelled r = (r.captioner.can_broadcast ≡ true) × (cancelled ≡ true)
SettledIn ended cancelled r =
    (r.captioner.can_broadcast ≡ true)
    × (cancelled ≡ true)
    × (r.captioner.pending_text ≡ "")
    × (r.client.has_conn ≡ false)

handle_transcript-can :
    (now : ℕ) (tr : Transcript) (c : Captioner)
    → (handle_transcript now tr c).0.can_broadcast ≡ c.can_broadcast
unfolding handle_transcript finalize accumulate
handle_transcript-can now tr c = ground arith

flush_pending_broadcast-can :
    (now : ℕ) (c : Captioner) → (flush_pending_broadcast now c).0.can_broadcast ≡ c.can_broadcast
unfolding flush_pending_broadcast
flush_pending_broadcast-can now c = ground arith

flush_pending_final-can :
    (now : ℕ) (c : Captioner)
    → c.can_broadcast ≡ true
    → ((flush_pending_final now c).0.can_broadcast ≡ true)
      × ((flush_pending_final now c).0.pending_text ≡ "")
unfolding flush_pending_final
flush_pending_final-can now c can = ground (arith, str_eq_iff c.pending_text "")

-- The read loop does not touch the connection.
on_text-conn :
    (quit : Bool) (m : Option Fields) (c : Client) → (on_text quit m c).has_conn ≡ c.has_conn
unfolding on_text
on_text-conn quit none c = refl
on_text-conn quit (some msg) c =
    let kind = string_or_empty (get_field "type" msg) in
    elim (Option-cases (token_or_end kind msg)) [
      | inr (t, is) ↦ rw (is, on_text) (ground arith)
      | inl other ↦ rw (other, on_text) (ground arith)
    ]

module _ {ℓ} (A : Type ℓ) where
  on_transcript-can :
      (now : ℕ) (trs : List Transcript) (r : Runner)
      → (on_transcript {A = A} now trs r).0.captioner.can_broadcast ≡ r.captioner.can_broadcast
  unfolding on_transcript
  on_transcript-can now [] r = refl
  on_transcript-can now (t ∷ rest) r = handle_transcript-can now t r.captioner

  on_error-can :
      (now : ℕ) (dialled : Bool) (errors : List ModalError) (r : Runner)
      → r.captioner.can_broadcast ≡ true
      → (on_error {A = A} now dialled errors r).0.captioner.can_broadcast ≡ true
  unfolding on_error on_modal_error try_reconnect connect
  on_error-can now dialled [] r can = can
  on_error-can now dialled (e ∷ rest) r can =
      ground (arith, flush_pending_final-can now r.captioner can)

  -- Neither the first `Connect` nor the read loop touches the captions.
  pub system_step-captioner :
      (cancelled : Bool) (e : ServiceEvent) (s : System)
      → (system_step {A = A} (service_event cancelled e) s).runner.captioner ≡ s.runner.captioner
  unfolding system_step
  system_step-captioner cancelled (connects dialled) s = ground arith
  system_step-captioner cancelled (reports normal) s = ground arith
  system_step-captioner cancelled marks s = ground arith
  system_step-captioner cancelled (hears_back quit msg) s = ground arith

  -- Under a context that is done they make no connection.
  system_step-conn :
      (e : ServiceEvent) (s : System)
      → s.runner.client.has_conn ≡ false
      → (system_step {A = A} (service_event true e) s).runner.client.has_conn ≡ false
  unfolding system_step connect report_read_error mark_disconnected
  system_step-conn (connects dialled) s down = ground arith
  system_step-conn (reports normal) s down = ground arith
  system_step-conn marks s down = ground arith
  system_step-conn (hears_back quit msg) s down =
      ground (arith, on_text-conn quit msg s.runner.client)

  pub service-SettledIn :
      (phase : Phase) (cancelled : Bool) (e : ServiceEvent) (s : System)
      → SettledIn phase cancelled s.runner
      → SettledIn phase cancelled (system_step {A = A} (service_event cancelled e) s).runner
  service-SettledIn running cancelled e s can = rw (system_step-captioner cancelled e s) can
  service-SettledIn draining cancelled e s h = rw (system_step-captioner cancelled e s) h
  service-SettledIn ended cancelled e s (can, done, text, down) =
      let same = system_step-captioner cancelled e s in
      (rw same can, done, rw same text, rw done (system_step-conn e s down))

module _ (F : Floats) where
  -- A voice is settled in its phase.
  abbrev pub Settled : Voice F → Type 0
  Settled v = SettledIn v.phase v.cancelled v.system.runner

  pub cancels-Settled :
      (phase : Phase) (before : Bool) (r : Runner)
      → SettledIn phase before r
      → SettledIn phase true r
  cancels-Settled running before r can = can
  cancels-Settled draining before r (can, done) = (can, refl)
  cancels-Settled ended before r (can, done, text, down) = (can, refl, text, down)

  take_chunk-SettledIn :
      (phase : Phase) (chunks : List (List F.F32)) (v : Voice F)
      → SettledIn phase v.cancelled v.system.runner
      → SettledIn phase (take_chunk F chunks v).cancelled (take_chunk F chunks v).system.runner
  take_chunk-SettledIn phase [] v h = h
  take_chunk-SettledIn running (chunk ∷ rest) v h = h
  take_chunk-SettledIn draining (chunk ∷ rest) v h = h
  take_chunk-SettledIn ended (chunk ∷ rest) v h = h

  pub turn-SettledIn :
      (phase : Phase) (now : ℕ) (t : Turn) (v : Voice F)
      → SettledIn phase v.cancelled v.system.runner
      → SettledIn phase (turn F phase now t v).cancelled (turn F phase now t v).system.runner
  unfolding turn run_step
  turn-SettledIn running now at_tick v can =
      flush_pending_broadcast-can now v.system.runner.captioner ∙ can
  turn-SettledIn running now at_transcript v can =
      on_transcript-can F.F32 now v.system.runner.client.transcript_ch v.system.runner ∙ can
  turn-SettledIn running now (at_error dialled) v can =
      on_error-can F.F32 now (dialled && not v.cancelled) v.system.runner.client.err_ch
        v.system.runner can
  turn-SettledIn running now at_chunk v h = take_chunk-SettledIn running v.audio.audio_out_ch v h
  turn-SettledIn draining now at_tick v h = h
  turn-SettledIn draining now at_transcript v (can, done) =
      (on_transcript-can F.F32 now v.system.runner.client.transcript_ch v.system.runner ∙ can, done)
  turn-SettledIn draining now (at_error dialled) v h = h
  turn-SettledIn draining now at_chunk v h = take_chunk-SettledIn draining v.audio.audio_out_ch v h
  turn-SettledIn ended now t v h = h

  take_chunk-phase :
      (chunks : List (List F.F32)) (v : Voice F) → (take_chunk F chunks v).phase ≡ v.phase
  take_chunk-phase [] v = refl
  take_chunk-phase (chunk ∷ rest) v = refl

  pub turn-phase :
      (phase : Phase) (now : ℕ) (t : Turn) (v : Voice F) → (turn F phase now t v).phase ≡ v.phase
  unfolding turn
  turn-phase running now at_tick v = refl
  turn-phase running now at_transcript v = refl
  turn-phase running now (at_error dialled) v = refl
  turn-phase running now at_chunk v = take_chunk-phase v.audio.audio_out_ch v
  turn-phase draining now at_tick v = refl
  turn-phase draining now at_transcript v = refl
  turn-phase draining now (at_error dialled) v = refl
  turn-phase draining now at_chunk v = take_chunk-phase v.audio.audio_out_ch v
  turn-phase ended now t v = refl

  pub begin_drain-Settled :
      (phase : Phase) (v : Voice F) → v.phase ≡ phase → Settled v → Settled (begin_drain F phase v)
  begin_drain-Settled running v p h = starts v.cancelled refl
    where
      starts :
          (done : Bool)
          → v.cancelled ≡ done
          → Settled (
              if done
              then record v {
                system = record (v.system) {
                  runner = record (v.system.runner) { audio_chunk_count = 0 };
                };
                phase = draining;
              }
              else v)
      starts true done = ((rw p at h), done)
      starts false live = h
  begin_drain-Settled draining v p h = h
  begin_drain-Settled ended v p h = h

  pub end_drain-Settled :
      (phase : Phase) (now : ℕ) (v : Voice F)
      → v.phase ≡ phase
      → Settled v
      → Settled (end_drain F phase now v)
  unfolding close
  end_drain-Settled running now v p h = h
  end_drain-Settled draining now v p h =
      let r = v.system.runner in
      let (can, done) = (rw p at h) in
      let (still, empty) = flush_pending_final-can now r.captioner can in (still, done, empty, refl)
  end_drain-Settled ended now v p h = h
