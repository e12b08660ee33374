-- ===== src/Command/Usable.antt =====
-- What cmd/transcribe-service/main.go makes sure of before it serves.
use Prim.Native.String
use nc_kyutai_live_transcrip.Prelude.{String, [], lookup, some, ◌≡◌, ◌≢◌, ◌⊎◌}
use nc_kyutai_live_transcrip.Modal.Client.{Config, auth_headers, stt_url}
use nc_kyutai_live_transcrip.Session.Manager.{Manager}

-- The URL of a workspace's service
abbrev pub workspace_url : String → String
workspace_url name =
    String.◌++◌ "wss://"
      (String.◌++◌ name "--kyutai-stt-rust-kyutaisttrustservice-serve.modal.run/v1/stream")

-- A dial with this configuration goes to a URL of its own, or to that of a workspace that has a
-- name, with both credentials.
abbrev pub CanDial : Config → Type 0
CanDial c =
    ((c.stream_url ≢ "") × (stt_url c ≡ c.stream_url))
    ⊎ ((c.workspace ≢ "")
        × (stt_url c ≡ workspace_url c.workspace)
        × (lookup "Modal-Key" (auth_headers c) ≡ some c.key)
        × (lookup "Modal-Secret" (auth_headers c) ≡ some c.secret))

-- What holds of the manager of a service that started
abbrev pub IsUsable : Manager → Type 0
IsUsable m =
    (m.rooms ≡ []) × (m.config.hpb_url ≢ "") × (m.config.hpb_secret ≢ "") × CanDial m.config.modal
