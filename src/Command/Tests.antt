-- ===== src/Command/Tests.antt =====
-- A service that is configured by its environment.

use nc_kyutai_live_transcrip.Prelude.{
  Dict, List, Option, String, [], if◌then◌else◌, is_some, lookup, none, refl, some, str_eq, true,
  ◌↔◌, ◌∷◌, ◌≡◌,
}
use nc_kyutai_live_transcrip.Session.Manager.{new_manager_of}
use nc_kyutai_live_transcrip.Text.{trim_right}
use nc_kyutai_live_transcrip.Command.{Flags, port_of, loaded, config_of}
use nc_kyutai_live_transcrip.Json.{object, field, end, bool, get_field}
use nc_kyutai_live_transcrip.Audio.Halves.{halves}
use nc_kyutai_live_transcrip.Session.Room.{Environment}
use nc_kyutai_live_transcrip.Session.Manager.{Signaling}
use nc_kyutai_live_transcrip.Session.Api.{
  TranscribeRequest, enabled, respond, status_ok, requested_language,
}
use nc_kyutai_live_transcrip.Command.Routes.{log_level, warn}
use nc_kyutai_live_transcrip.Command.Routes.{
  json, api, heartbeat, get_enabled, languages, metrics, post_transcribe, App, launch, serve,
  AppEvent, request, app_run,
}
use nc_kyutai_live_transcrip.Command.Routes.Served.{
  language_in, document, languages-served, launch-enabled,
}

abbrev no_flags : Flags
no_flags = record {
  port = "8080";
  hpb_url = "";
  hpb_secret = "";
  stt_stream_url = "";
  modal_workspace = "";
  modal_key = "";
  modal_secret = "";
}

abbrev variables : Dict String
variables =
    ("LT_HPB_URL", "wss://hpb")
    ∷ ("LT_INTERNAL_SECRET", "s")
    ∷ ("MODAL_WORKSPACE", "acme")
    ∷ ("MODAL_KEY", "k1")
    ∷ ("MODAL_SECRET", "s1")
    ∷ []

abbrev of_dict : Option String → String
of_dict none = ""
of_dict (some text) = text

environment : String → String
environment name = of_dict (lookup name variables)

trimmed : trim_right "https://cloud//" ≡ "https://cloud"
unfolding trim_right
trimmed = refl

port_given : port_of "8080" (λ name. if str_eq name "PORT" then "9000" else "") ≡ "9000"
unfolding port_of
port_given = refl

abbrev home : Environment
home = record { floats = halves; peer_made = λ s. true; answer_to = λ s sdp. some "answer" }

abbrev in_order : List String → List String
in_order ks = ks

abbrev app : App
app = record {
  id = "live_transcription";
  version = "1.0.0";
  hpb_configured = true;
  modal_configured = true;
  session_mgr = new_manager_of (config_of (loaded no_flags environment) environment);
}

abbrev reachable : Signaling
reachable = record { connect_error = none; join_error = none }

abbrev in_french : TranscribeRequest
in_french = record {
  room_token = "t1";
  enable = none;
  lang_id = "fr";
  language_id = "";
  turn_servers = [];
}

abbrev visits : List AppEvent
visits =
    request (post_transcribe reachable (some in_french)) ∷ request heartbeat ∷ request metrics ∷ []

languages-served_example :
    let lang = requested_language in_french in
    let (after, answer) = serve in_order (post_transcribe reachable (some in_french)) app in
    let listed = is_some (get_field lang (document (serve in_order languages app).1)) in
    ((answer ≡ api (respond status_ok (enabled true lang))) ↔ (listed ≡ true))
    × ((language_in in_french.room_token after ≡ some lang) ↔ (listed ≡ true))
unfolding lookup new_manager_of
languages-served_example =
    languages-served reachable in_order in_french app refl refl refl refl refl

warns : log_level "warn" ≡ warn
unfolding log_level
warns = refl

always_enabled :
    (serve in_order get_enabled (app_run home in_order visits app)).1
    ≡ json (object (field "enabled" (bool true) end))
unfolding launch environment lookup
always_enabled = launch-enabled home in_order no_flags environment app visits refl
