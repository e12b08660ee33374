-- ===== src/Command/Routes.antt =====
-- cmd/transcribe-service/main.go: the routes of the HTTP server. Which route a request takes is
-- chosen by net/http from its method and path; what comes with it are the arguments of its handler.
pub mod Served
pub mod Counts
use Prim.Native.String
use nc_kyutai_live_transcrip.Prelude.{
  Bool, List, Option, String, [], false, if◌then◌else◌, not, some, str_eq, ℕ, ◌&&◌, ◌>>=◌, ◌||◌,
  ◌∷◌,
}
use nc_kyutai_live_transcrip.Json.{
  Value, bool, string, array, object, Values, nil, cons, Fields, field, end,
}
use nc_kyutai_live_transcrip.Modal.Client.{is_empty}
use nc_kyutai_live_transcrip.Session.Room.{Environment}
use nc_kyutai_live_transcrip.Session.Manager.{
  Manager, Signaling, RoomInput, room_count, speaker_count, room_input, close,
}
use nc_kyutai_live_transcrip.Session.Api.{
  TranscribeRequest, Response, handle_transcribe_request, handle_stop_request,
}
use nc_kyutai_live_transcrip.Command.{Flags, loaded, start}

-- A piece of what `fmt.Fprintf` writes: text of the format, or the number for a `%d`.
pub data Piece : Type 0 where
  words : String → Piece
  count : ℕ → Piece

-- What a handler writes: a JSON document, text of a type, or an answer of pkg/session/api.go.
pub data Answer : Type 0 where
  json : Value → Answer
  formatted : String → List Piece → Answer
  api : Response → Answer

pub data Route : Type 0 where
  heartbeat init set_enabled get_enabled capabilities languages health metrics : Route
  healthz : ℕ → Route
  post_transcribe : Signaling → Option TranscribeRequest → Route
  delete_transcribe : String → Route

-- The variables of `main` that the handlers use; those of the session manager are its state.
pub record App : Type 0 where
  pub id : String
  pub version : String
  pub hpb_configured : Bool
  pub modal_configured : Bool
  pub session_mgr : Manager

abbrev or_default : String → String → String
or_default variable default = if is_empty variable then default else variable

-- `main`, up to the server that it starts: `none` is its exit with status 1.
unfoldable pub launch : Flags → (String → String) → Option App
unfolding start loaded
launch f env =
    let all = loaded f env in
    let use_custom_stt = not (is_empty all.stt_stream_url) in
    let modal_creds_present =
      not (is_empty all.modal_workspace)
      && (not (is_empty all.modal_key) && not (is_empty all.modal_secret)) in
    start f env >>= λ manager. some (record {
      id = or_default (env "APP_ID") "live_transcription";
      version = or_default (env "APP_VERSION") "1.0.0";
      hpb_configured = not (is_empty all.hpb_url) && not (is_empty all.hpb_secret);
      modal_configured = use_custom_stt || modal_creds_present;
      session_mgr = manager;
    })

abbrev language_named : String → Value
language_named name = object (
    field "name" (string name) (
      field "metadata" (object (field "separator" (string " ") (field "rtl" (bool false) end)))
        end))

abbrev pub supported_languages : Fields
supported_languages =
    field "en" (language_named "English") (field "fr" (language_named "Français") end)

abbrev capabilities_of : App → Fields
capabilities_of a =
    field a.id
      (object (
        field "version" (string a.version) (
          field "features" (array (cons (string "live_transcription") nil)) (
            field "live_transcription"
              (object (field "supported_languages" (object supported_languages) end)) end))))
      end

abbrev health_of : App → Fields
health_of a = field "status" (string "ok") (
    field "version" (string a.version) (
      field "modal_configured" (bool a.modal_configured)
        (field "hpb_configured" (bool a.hpb_configured) end)))

-- The format of the health check is a raw string, in which `\n` is a backslash and an n.
abbrev pub healthz_pieces : ℕ → ℕ → ℕ → List Piece
healthz_pieces rooms speakers now =
    words "{\"status\":\"healthy\",\"rooms\":"
    ∷ count rooms
    ∷ words ",\"speakers\":"
    ∷ count speakers
    ∷ words ",\"timestamp\":"
    ∷ count now
    ∷ words "}\\n"
    ∷ []

abbrev pub metrics_pieces : ℕ → ℕ → List Piece
metrics_pieces rooms speakers =
    words "# HELP transcription_rooms_active Number of active rooms\n"
    ∷ words "# TYPE transcription_rooms_active gauge\n"
    ∷ words "transcription_rooms_active "
    ∷ count rooms
    ∷ words "\n"
    ∷ words "# HELP transcription_speakers_active Number of active speakers\n"
    ∷ words "# TYPE transcription_speakers_active gauge\n"
    ∷ words "transcription_speakers_active "
    ∷ count speakers
    ∷ words "\n"
    ∷ []

abbrev answered : App → Manager × Response → App × Answer
answered a (m, r) = (record a { session_mgr = m }, api r)

-- The handlers. The order in which a map is ranged over is an argument.
unfoldable pub serve : (List String → List String) → Route → App → App × Answer
serve order heartbeat a = (a, json (object (field "status" (string "ok") end)))
serve order init a = (a, json (object end))
serve order set_enabled a = (a, json (object end))
serve order get_enabled a =
    (a, json (object (field "enabled" (bool (a.hpb_configured && a.modal_configured)) end)))
serve order capabilities a = (a, json (object (capabilities_of a)))
serve order languages a = (a, json (object supported_languages))
serve order (healthz now) a = (
  a,
  formatted "application/json"
      (healthz_pieces (room_count a.session_mgr) (speaker_count a.session_mgr) now),
)
serve order health a = (a, json (object (health_of a)))
serve order (post_transcribe sig req) a =
    answered a (handle_transcribe_request sig order req a.session_mgr)
serve order (delete_transcribe token) a = answered a (handle_stop_request order token a.session_mgr)
serve order metrics a = (
  a,
  formatted "text/plain" (metrics_pieces (room_count a.session_mgr) (speaker_count a.session_mgr)),
)

-- What happens to a service that was launched: a request, something for a joined room, or the
-- deferred `Close` of the session manager.
pub data AppEvent : Type 0 where
  request : Route → AppEvent
  in_room : String → RoomInput → AppEvent
  shut_down : AppEvent

module _ (env : Environment) (order : List String → List String) where
  unfoldable pub app_step : AppEvent → App → App
  unfolding serve
  app_step (request route) a = (serve order route a).0
  app_step (in_room token input) a = record a {
    session_mgr = room_input env token input a.session_mgr;
  }
  app_step shut_down a = record a { session_mgr = close order a.session_mgr }

  unfoldable pub app_run : List AppEvent → App → App
  unfolding app_step
  app_run [] a = a
  app_run (e ∷ es) a = app_run es (app_step e a)

-- `setupLogger`: the least level that is logged
pub data Level : Type 0 where
  debug info warn severe : Level

unfoldable pub log_level : String → Level
log_level level =
    if str_eq level "debug"
    then debug
    else if str_eq level "warn"
    then warn
    else if str_eq level "error"
    then severe
    else info
