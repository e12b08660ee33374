-- ===== src/Session/Run/Lost.antt =====
-- When a transcriber is without its service for good.
use nc_kyutai_live_transcrip.Prelude.{Bool, List, [], arith, false, true, ℕ, ◌∷◌, ◌≡◌}
use nc_kyutai_live_transcrip.Modal.Client.{
  read_error, connect, is_normal_close, is_connected, report_read_error, mark_disconnected,
}
use nc_kyutai_live_transcrip.Session.Run.{
  flush_tick, got_transcript, got_error, got_chunk, run_step, on_transcript, on_error,
  on_modal_error, try_reconnect,
}
use nc_kyutai_live_transcrip.Session.Run.System.{
  System, SystemEvent, first_connect, round, loop_reports, loop_marks, loop_reads, system_step,
  system_run,
}

-- Not connected, no goroutine that could change that, and no error queued that would make the
-- loop of `run` try again.
pub record IsLost (s : System) : Type 0 where
  pub down : s.runner.client.connected ≡ false
  pub quiet : s.runner.client.err_ch ≡ []
  pub no_loop : s.runner.client.reading ≡ 0
  pub settled : s.connecting ≡ false
  pub alive : s.dying ≡ false

module _ {ℓ} (A : Type ℓ) where
  step-IsLost : (e : SystemEvent A) (s : System) → IsLost s → IsLost (system_step e s)
  unfolding system_step run_step on_transcript on_error
  step-IsLost (first_connect dialled) s l = ground arith
  step-IsLost (round now flush_tick) s l = ground arith
  step-IsLost (round now got_transcript) s l = ground arith
  step-IsLost (round now (got_error dialled)) s l = ground arith
  step-IsLost (round now (got_chunk chunk)) s l = ground arith
  step-IsLost (loop_reports normal) s l = ground arith
  step-IsLost loop_marks s l = ground arith
  step-IsLost (loop_reads quit msg) s l = ground arith

  run-IsLost : (es : List (SystemEvent A)) (s : System) → IsLost s → IsLost (system_run s es)
  unfolding system_run
  run-IsLost [] s l = l
  run-IsLost (e ∷ es) s l = run-IsLost es (system_step e s) (step-IsLost e s l)

  failed_attempt-IsLost :
      (s : System) (now : ℕ)
      → s.runner.client.connected ≡ false
      → s.runner.client.err_ch ≡ read_error false ∷ []
      → s.runner.client.reading ≡ 0
      → s.connecting ≡ false
      → s.dying ≡ false
      → IsLost (system_step {A = A} (round now (got_error false)) s)
  unfolding system_step run_step on_error on_modal_error try_reconnect connect is_normal_close
  failed_attempt-IsLost s now down queued no_loop settled alive = ground arith

  early_error-IsLost :
      (s : System) (now : ℕ) (dialled : Bool)
      → s.runner.client.connected ≡ true
      → s.runner.client.err_ch ≡ []
      → s.runner.client.reading ≡ 1
      → s.connecting ≡ false
      → s.dying ≡ false
      → IsLost (
          system_step {A = A} loop_marks (
            system_step {A = A}
              (round now (got_error dialled))
              (system_step {A = A} (loop_reports false) s)))
  unfolding system_step run_step on_error on_modal_error is_normal_close is_connected
      report_read_error mark_disconnected
  early_error-IsLost s now dialled up quiet one settled alive = ground arith

  -- A client whose only queued error is the broken read, with its read loop gone: the attempt that
  -- this error causes is the last one. When its dial fails, no later step of any goroutine connects
  -- the client again.
  pub one_attempt_only :
      (s : System) (now : ℕ) (es : List (SystemEvent A))
      → s.runner.client.connected ≡ false
      → s.runner.client.err_ch ≡ read_error false ∷ []
      → s.runner.client.reading ≡ 0
      → s.connecting ≡ false
      → s.dying ≡ false
      → (system_run s (round now (got_error false) ∷ es)).runner.client.connected ≡ false
  unfolding system_run
  one_attempt_only s now es down queued no_loop settled alive =
      (run-IsLost es _ (failed_attempt-IsLost s now down queued no_loop settled alive)).down

  -- The read loop queues its error before it marks the client as not connected. When the loop of
  -- `run` handles the error in between, it sees a connected client and does not reconnect, and no
  -- later step connects the client again, whatever a dial would have given.
  pub error_before_mark :
      (s : System) (now : ℕ) (dialled : Bool) (es : List (SystemEvent A))
      → s.runner.client.connected ≡ true
      → s.runner.client.err_ch ≡ []
      → s.runner.client.reading ≡ 1
      → s.connecting ≡ false
      → s.dying ≡ false
      → (system_run s (
          loop_reports false
          ∷ round now (got_error dialled)
          ∷ loop_marks
          ∷ es)).runner.client.connected
        ≡ false
  unfolding system_run
  error_before_mark s now dialled es up quiet one settled alive =
      (run-IsLost es _ (early_error-IsLost s now dialled up quiet one settled alive)).down
