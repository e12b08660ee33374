-- ===== src/Command.antt =====
-- cmd/transcribe-service/main.go: how the service is configured. The flags are given as they were
-- parsed; the environment is a function, with the empty text for a variable that is not set.
pub mod Usable
pub mod Routes
mod Tests
use nc_kyutai_live_transcrip.Text.{trim_right}
use nc_kyutai_live_transcrip.Prelude.{
  Bool, Option, String, if◌then◌else◌, none, not, pos, some, str_eq, ◌&&◌, ◌||◌,
}
use nc_kyutai_live_transcrip.Modal.Client.{Config, is_empty}
use nc_kyutai_live_transcrip.Session.Manager.{Manager, ManagerConfig, new_manager_of}

pub record Flags : Type 0 where
  pub port : String
  pub hpb_url : String
  pub hpb_secret : String
  pub stt_stream_url : String
  pub modal_workspace : String
  pub modal_key : String
  pub modal_secret : String

-- A flag, or else the variable
abbrev pub or_env : String → String → String
or_env flag variable = if is_empty flag then variable else flag

-- The default port is replaced by APP_PORT, or else PORT.
unfoldable pub port_of : String → (String → String) → String
port_of flag env =
    if str_eq flag "8080" then or_env (env "APP_PORT") (or_env (env "PORT") flag) else flag

-- The flags with what the environment adds to them
unfoldable pub loaded : Flags → (String → String) → Flags
unfolding port_of
loaded f env = record {
  port = port_of f.port env;
  hpb_url = or_env f.hpb_url (env "LT_HPB_URL");
  hpb_secret = or_env f.hpb_secret (env "LT_INTERNAL_SECRET");
  stt_stream_url = or_env f.stt_stream_url (env "STT_STREAM_URL");
  modal_workspace = or_env f.modal_workspace (env "MODAL_WORKSPACE");
  modal_key = or_env f.modal_key (env "MODAL_KEY");
  modal_secret = or_env f.modal_secret (env "MODAL_SECRET");
}

-- The test of the required configuration
abbrev pub is_complete : Flags → Bool
is_complete f =
    let use_custom_stt = not (is_empty f.stt_stream_url) in
    let modal_creds_present =
      not (is_empty f.modal_workspace)
      && (not (is_empty f.modal_key) && not (is_empty f.modal_secret)) in
    not (
      is_empty f.hpb_url
      || (is_empty f.hpb_secret || (not use_custom_stt && not modal_creds_present)))

-- The configuration of the session manager
abbrev pub config_of : Flags → (String → String) → ManagerConfig
config_of f env = record {
  hpb_url = f.hpb_url;
  hpb_secret = f.hpb_secret;
  hpb_signaling_secret = env "LT_SIGNALING_SECRET";
  hpb_backend_url = trim_right (env "NEXTCLOUD_URL");
  modal = record {
    workspace = f.modal_workspace;
    stream_url = f.stt_stream_url;
    key = f.modal_key;
    secret = f.modal_secret;
  };
  max_speakers = pos 500;
}

-- `main`, up to the session manager that it makes: `none` is its exit with status 1.
unfoldable pub start : Flags → (String → String) → Option Manager
unfolding loaded trim_right
start f env =
    let all = loaded f env in
    if is_complete all then some (new_manager_of (config_of all env)) else none
