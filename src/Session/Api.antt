-- ===== src/Session/Api.antt =====
-- pkg/session/api.go: the two HTTP handlers. A request is what the JSON decoder and the router
-- give; a response is its status and what its JSON body says.
pub mod Answers
pub mod Service
pub mod Refinement
use Prim.Native.String
use nc_kyutai_live_transcrip.Session.Room.{Room}
use nc_kyutai_live_transcrip.Prelude.{
  Bool, List, Option, String, false, if◌then◌else◌, none, not, some, str_eq, true, ℕ, ◌&&◌, ◌++◌,
}
use nc_kyutai_live_transcrip.Modal.Client.{is_empty}
use nc_kyutai_live_transcrip.Webrtc.Manager.{TurnServer}
use nc_kyutai_live_transcrip.Session.Manager.{Manager, Signaling, join_room, leave_room}

-- `TranscribeRequest`; the servers of `TURNServerRequest` have the same fields as `TurnServer`.
pub record TranscribeRequest : Type 0 where
  pub room_token : String
  pub enable : Option Bool
  pub lang_id : String
  pub language_id : String
  pub turn_servers : List TurnServer

-- The bodies: an error, what the transcription is set to, and that it was stopped.
pub data Body : Type 0 where
  error : String → Body
  enabled : Bool → String → Body
  stopped : String → Body

pub record Response : Type 0 where
  pub status : ℕ
  pub body : Body

abbrev pub status_ok : ℕ
status_ok = 200

abbrev pub status_bad_request : ℕ
status_bad_request = 400

abbrev pub status_internal_server_error : ℕ
status_internal_server_error = 500

abbrev pub respond : ℕ → Body → Response
respond status body = record { status = status; body = body }

-- `langId`, else `languageId`, else "en".
unfoldable pub requested_language : TranscribeRequest → String
requested_language req =
    if is_empty req.lang_id
    then (if is_empty req.language_id then "en" else req.language_id)
    else req.lang_id

-- An unsupported language is replaced by the default.
unfoldable pub supported_language : String → String
supported_language lang = if not (str_eq lang "en") && not (str_eq lang "fr") then "en" else lang

-- `enable` defaults to true.
abbrev pub wants : Option Bool → Bool
wants none = true
wants (some b) = b

-- The answer to an attempt to join
abbrev pub join_answer : String → Manager × Option String → Manager × Response
join_answer lang (m, none) = (m, respond status_ok (enabled true lang))
join_answer lang (m, some e) = (m, respond status_internal_server_error (error e))

-- The part of `HandleTranscribeRequest` behind the decoding
unfoldable pub transcribe :
    Signaling → (List String → List String) → TranscribeRequest → Manager → Manager × Response
transcribe sig order req m =
    let lang = requested_language req in
    if is_empty req.room_token
    then (m, respond status_bad_request (error "roomToken required"))
    else if not (wants req.enable)
    then ((leave_room order req.room_token m).0, respond status_ok (enabled false lang))
    else join_answer (supported_language lang)
        (join_room sig req.room_token (supported_language lang) req.turn_servers m)

-- `HandleTranscribeRequest`; `none` is a body that does not decode.
unfoldable pub handle_transcribe_request :
    Signaling
    → (List String → List String)
    → Option TranscribeRequest
    → Manager
    → Manager × Response
unfolding transcribe
handle_transcribe_request sig order none m =
    (m, respond status_bad_request (error "invalid request body"))
handle_transcribe_request sig order (some req) m = transcribe sig order req m

-- The answer to an attempt to leave. The error of `LeaveRoom` names the room.
abbrev pub stop_answer : String → Manager × Option Room → Manager × Response
stop_answer token (m, none) =
    (m, respond status_internal_server_error (error (String.◌++◌ "room not found: " token)))
stop_answer token (m, some left) = (m, respond status_ok (stopped token))

-- `HandleStopTranscriptionRequest`, with the path's room token
unfoldable pub handle_stop_request :
    (List String → List String) → String → Manager → Manager × Response
handle_stop_request order token m =
    if is_empty token
    then (m, respond status_bad_request (error "roomToken required"))
    else stop_answer token (leave_room order token m)
