-- ===== src/Session/Run/System.antt =====
-- The transcriber's loop together with the two other goroutines that work on its service client:
-- the first `Connect` in the background, and the client's read loop (pkg/modal/client.go).
use nc_kyutai_live_transcrip.Prelude.{
  Bool, List, Option, [], false, if◌then◌else◌, true, ℕ, ◌==◌, ◌||◌, ◌∷◌,
}
use nc_kyutai_live_transcrip.Json.{Fields}
use nc_kyutai_live_transcrip.Modal.Client.{
  Client, connect, report_read_error, mark_disconnected, on_text,
}
use nc_kyutai_live_transcrip.Session.Run.{Runner, RunEvent, run_step}

-- `connecting`: the first `Connect` is under way. `dying`: the read loop has queued its error and
-- has not yet marked the client as not connected.
pub record System : Type 0 where
  pub runner : Runner
  pub connecting : Bool
  pub dying : Bool

pub data SystemEvent {ℓ} (A : Type ℓ) : Type ℓ where
  first_connect : Bool → SystemEvent A
  round : ℕ → RunEvent A → SystemEvent A
  loop_reports : Bool → SystemEvent A
  loop_marks : SystemEvent A
  loop_reads : Bool → Option Fields → SystemEvent A

abbrev pub with_client : Client → System → System
with_client c s = record s { runner = record s.runner { client = c } }

module _ {ℓ} {A : Type ℓ} where
  -- One step of one goroutine. A step of a goroutine that is not there changes nothing.
  unfoldable pub system_step : SystemEvent A → System → System
  system_step (first_connect dialled) s =
      if s.connecting
      then record (with_client (connect dialled s.runner.client).0 s) { connecting = false }
      else s
  system_step (round now e) s = record s { runner = (run_step now e s.runner).0 }
  system_step (loop_reports normal) s =
      if s.runner.client.reading == 0 || s.dying
      then s
      else record (with_client (report_read_error normal s.runner.client) s) { dying = true }
  system_step loop_marks s =
      if s.dying
      then record (with_client (mark_disconnected s.runner.client) s) { dying = false }
      else s
  system_step (loop_reads quit msg) s =
      if s.runner.client.reading == 0 || s.dying
      then s
      else with_client (on_text quit msg s.runner.client) s

  unfoldable pub system_run : System → List (SystemEvent A) → System
  system_run s [] = s
  system_run s (e ∷ es) = system_run (system_step e s) es
