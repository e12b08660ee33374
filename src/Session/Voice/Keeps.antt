-- ===== src/Session/Voice/Keeps.antt =====
-- What the steps of a transcriber keep: it stays settled, and its end is silent.
use nc_kyutai_live_transcrip.Prelude.{refl, true, ℕ, ◌∙◌, ◌≡◌}
use nc_kyutai_live_transcrip.Audio.Floats.{Floats}
use nc_kyutai_live_transcrip.Session.Run.System.{system_step}
use nc_kyutai_live_transcrip.Session.Voice.{
  Phase, running, draining, ended, Turn, ServiceEvent, service_event, Voice, turn, begin_drain,
  end_drain,
}
use nc_kyutai_live_transcrip.Session.Voice.Settled.{
  Settled, cancels-Settled, turn-SettledIn, begin_drain-Settled, end_drain-Settled, turn-phase,
  service-SettledIn,
}

module _ (F : Floats) where
  -- Once the goroutine of `run` has ended, it has ended for good, and nothing more is sent or said.
  abbrev pub SilentIn : Phase → Voice F → Voice F → Type 0
  SilentIn ended v v' = (v'.phase ≡ ended) × (v'.sent ≡ v.sent) × (v'.said ≡ v.said)
  SilentIn _ v v' = Unit {0}

  same-SilentIn :
      (phase : Phase) (v v' : Voice F)
      → v.phase ≡ phase
      → v'.phase ≡ v.phase
      → v'.sent ≡ v.sent
      → v'.said ≡ v.said
      → SilentIn phase v v'
  same-SilentIn running v v' p same sent said = tt
  same-SilentIn draining v v' p same sent said = tt
  same-SilentIn ended v v' p same sent said = (same ∙ p, sent, said)

  pub SilentIn-trans :
      (phase : Phase) (v v' v'' : Voice F)
      → SilentIn phase v v'
      → SilentIn v'.phase v' v''
      → SilentIn phase v v''
  SilentIn-trans running v v' v'' a b = tt
  SilentIn-trans draining v v' v'' a b = tt
  SilentIn-trans ended v v' v'' (over, sent, said) b =
      let (over', sent', said') = (rw over at b) in (over', sent' ∙ sent, said' ∙ said)

  turn-SilentIn :
      (phase : Phase) (now : ℕ) (t : Turn) (v : Voice F)
      → v.phase ≡ phase
      → SilentIn phase v (turn F phase now t v)
  unfolding turn
  turn-SilentIn running now t v p = tt
  turn-SilentIn draining now t v p = tt
  turn-SilentIn ended now t v p = (p, refl, refl)

  begin_drain-SilentIn :
      (phase : Phase) (v : Voice F) → v.phase ≡ phase → SilentIn phase v (begin_drain F phase v)
  begin_drain-SilentIn running v p = tt
  begin_drain-SilentIn draining v p = tt
  begin_drain-SilentIn ended v p = (p, refl, refl)

  end_drain-SilentIn :
      (phase : Phase) (now : ℕ) (v : Voice F)
      → v.phase ≡ phase
      → SilentIn phase v (end_drain F phase now v)
  end_drain-SilentIn running now v p = tt
  end_drain-SilentIn draining now v p = tt
  end_drain-SilentIn ended now v p = (p, refl, refl)

  -- What an event keeps
  pub record Keeps (v v' : Voice F) : Type 0 where
    pub settled : Settled F v → Settled F v'
    pub silent : SilentIn v.phase v v'

  pub Keeps-same :
      (v v' : Voice F)
      → v'.phase ≡ v.phase
      → v'.sent ≡ v.sent
      → v'.said ≡ v.said
      → (Settled F v → Settled F v')
      → Keeps v v'
  Keeps-same v v' phase sent said settled = record {
    settled = settled;
    silent = same-SilentIn v.phase v v' refl phase sent said;
  }

  pub Keeps-turn : (now : ℕ) (t : Turn) (v : Voice F) → Keeps v (turn F v.phase now t v)
  Keeps-turn now t v = record {
    settled = λ h. rw (turn-phase F v.phase now t v) (turn-SettledIn F v.phase now t v h);
    silent = turn-SilentIn v.phase now t v refl;
  }

  pub Keeps-begin_drain : (v : Voice F) → Keeps v (begin_drain F v.phase v)
  Keeps-begin_drain v = record {
    settled = begin_drain-Settled F v.phase v refl;
    silent = begin_drain-SilentIn v.phase v refl;
  }

  pub Keeps-end_drain : (now : ℕ) (v : Voice F) → Keeps v (end_drain F v.phase now v)
  Keeps-end_drain now v = record {
    settled = end_drain-Settled F v.phase now v refl;
    silent = end_drain-SilentIn v.phase now v refl;
  }

  pub Keeps-cancels : (v : Voice F) → Keeps v (record v { cancelled = true })
  Keeps-cancels v =
      Keeps-same v _ refl refl refl (cancels-Settled F v.phase v.cancelled v.system.runner)

  pub Keeps-service :
      (e : ServiceEvent) (v : Voice F)
      → Keeps v
          (record v { system = system_step (service_event {A = F.F32} v.cancelled e) v.system })
  Keeps-service e v =
      Keeps-same v _ refl refl refl (service-SettledIn F.F32 v.phase v.cancelled e v.system)
