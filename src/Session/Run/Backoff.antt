-- ===== src/Session/Run/Backoff.antt =====
-- The waits between attempts to reconnect.
use nc_kyutai_live_transcrip.Prelude.{
  Bool, Bool-cases, List, [], ap, arith, false, inl, inr, leb, min, not, refl, suc, true, zero, ℕ,
  ◌&&◌, ◌*◌, ◌+◌, ◌<◌, ◌^◌, ◌∙◌, ◌∷◌, ◌≡◌, ◌≤◌, ◌⊎◌,
}
use nc_kyutai_live_transcrip.Modal.Client.{
  Transcript, ModalError, is_normal_close, is_connected, connect,
}
use nc_kyutai_live_transcrip.Session.Run.{
  Runner, Effects, RunEvent, flush_tick, got_transcript, got_error, got_chunk, max_attempts,
  try_reconnect, on_modal_error, on_transcript, on_error, run_step,
}

-- The multiplier is the power of two of the attempts that failed in a row, of which there are at
-- most five.
pub record InStep (r : Runner) : Type 0 where
  pub attempts : r.modal_connect_attempts ≤ max_attempts
  pub power_of_two : r.backoff_multiplier ≡ 2 ^ r.modal_connect_attempts

-- A round sleeps for nothing, or for a power of two of at most 16 seconds.
abbrev pub Short : ℕ → Type 0
Short slept = (slept ≡ 0) ⊎ ((k : ℕ) × (k < max_attempts) × (slept ≡ 2 ^ k))

pow_step : (k : ℕ) → k < max_attempts → min (2 ^ k * 2) 60 ≡ 2 ^ (k + 1)
pow_step zero h = refl
pow_step (suc zero) h = refl
pow_step (suc (suc zero)) h = refl
pow_step (suc (suc (suc zero))) h = refl
pow_step (suc (suc (suc (suc zero)))) h = refl
pow_step (suc (suc (suc (suc (suc k))))) h = absurd (omega arith)

try_reconnect-InStep :
    (dialled : Bool) (r : Runner)
    → InStep r
    → r.modal_connect_attempts < max_attempts
    → InStep (try_reconnect dialled r).0 × Short (try_reconnect dialled r).1
unfolding try_reconnect connect
try_reconnect-InStep true r v h = (
  record { attempts = omega arith; power_of_two = refl },
  inr (r.modal_connect_attempts, h, v.power_of_two),
)
try_reconnect-InStep false r v h = (
  record {
    attempts = omega arith;
    power_of_two =
        ap (λ (m : ℕ). min (m * 2) 60) v.power_of_two ∙ pow_step r.modal_connect_attempts h;
  },
  inr (r.modal_connect_attempts, h, v.power_of_two),
)

module _ {ℓ} (A : Type ℓ) where
  abbrev Keeps : Runner × Effects A → Type 0
  Keeps (r, out) = InStep r × Short out.slept

  on_modal_error-InStep :
      (now : ℕ) (dialled : Bool) (e : ModalError) (r : Runner)
      → InStep r
      → Keeps (on_modal_error now dialled e r)
  unfolding on_modal_error
  on_modal_error-InStep now dialled e r v = elim (Bool-cases (is_normal_close e)) [
    | inl normal ↦
        rw normal (record { attempts = v.attempts; power_of_two = v.power_of_two }, inl refl)
    | inr broken ↦
        elim (Bool-cases
          (not (is_connected r.client) && leb (suc r.modal_connect_attempts) max_attempts)) [
            | inr no_try ↦ rw (broken, no_try) (v, inl refl)
            | inl tries ↦ rw (broken, tries) (try_reconnect-InStep dialled r v (ground arith))
          ]
  ]

  on_error-InStep :
      (now : ℕ) (dialled : Bool) (es : List ModalError) (r : Runner)
      → InStep r
      → Keeps (on_error now dialled es r)
  unfolding on_error
  on_error-InStep now dialled [] r v = (v, inl refl)
  on_error-InStep now dialled (e ∷ rest) r v =
      on_modal_error-InStep now dialled e _
        (record { attempts = v.attempts; power_of_two = v.power_of_two })

  on_transcript-InStep :
      (now : ℕ) (ts : List Transcript) (r : Runner) → InStep r → Keeps (on_transcript now ts r)
  unfolding on_transcript
  on_transcript-InStep now [] r v = (v, inl refl)
  on_transcript-InStep now (t ∷ rest) r v =
      (record { attempts = v.attempts; power_of_two = v.power_of_two }, inl refl)

  -- From a state in which it is so, every round of the loop of `run` keeps the multiplier the
  -- power of two of the failed attempts in a row, at most five, and sleeps for nothing or for 1,
  -- 2, 4, 8 or 16 seconds: the cap of 60 never binds.
  pub run_step-InStep :
      (now : ℕ) (e : RunEvent A) (r : Runner)
      → InStep r
      → InStep (run_step now e r).0 × Short (run_step now e r).1.slept
  unfolding run_step
  run_step-InStep now flush_tick r v =
      (record { attempts = v.attempts; power_of_two = v.power_of_two }, inl refl)
  run_step-InStep now got_transcript r v = on_transcript-InStep now r.client.transcript_ch r v
  run_step-InStep now (got_error dialled) r v = on_error-InStep now dialled r.client.err_ch r v
  run_step-InStep now (got_chunk chunk) r v =
      (record { attempts = v.attempts; power_of_two = v.power_of_two }, inl refl)
