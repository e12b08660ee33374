-- ===== src/Session/ServiceTests.antt =====
-- The service on small requests, and its properties at them.
use nc_kyutai_live_transcrip.Prelude.{
  Bool, List, Option, String, [], delete, insert, keys, length, lookup, map, none, refl, some, true,
  ℕ, ◌∷◌, ◌≡◌, ◌⊎◌,
}
use nc_kyutai_live_transcrip.Json.{get_field}
use nc_kyutai_live_transcrip.Audio.Pipeline.{new_pipeline, new_resampler}
use nc_kyutai_live_transcrip.Webrtc.Manager.{create_peer, remove_peer, get_peer, new_manager}
use nc_kyutai_live_transcrip.Session.Participant.{
  session_of, is_stale, in_call_flags, judge, display_name,
}
use nc_kyutai_live_transcrip.Session.Room.{
  Room, handle_user, handle_users, handle_participants_event, apply_verdict, add_speaker,
  enter_speaker, remove_speaker,
}
use nc_kyutai_live_transcrip.Session.Room.Handlers.{
  remove_all, handle_hpb_message, handle_event_message,
}
use nc_kyutai_live_transcrip.Session.Manager.{
  Manager, new_manager_of, Signaling, new_room, has_session, delivered, leave_room, room_step,
  join_room, room_input,
}
use nc_kyutai_live_transcrip.Session.Manager.Rooms.{AllRooms, IsServed}
use nc_kyutai_live_transcrip.Session.Api.{
  TranscribeRequest, enabled, respond, status_ok, requested_language, supported_language,
  transcribe, handle_transcribe_request, handle_stop_request,
}
use nc_kyutai_live_transcrip.Session.Api.Answers.{failed_unchanged, rejoin_keeps_language}
use nc_kyutai_live_transcrip.Session.Api.Service.{
  ServiceEvent, transcribe_request, stop_request, room_event, service_step, service_run,
  service_run-IsServed,
}
use nc_kyutai_live_transcrip.Session.Api.Refinement.{board_of, board_run, service_run-board}
use nc_kyutai_live_transcrip.Session.RoomTests.{
  alice, bot, in_order, lab, one_room, service, settings, update_of,
}

abbrev reachable : Signaling
reachable = record { connect_error = none; join_error = none }

abbrev unreachable : Signaling
unreachable = record { connect_error = some "refused"; join_error = none }

abbrev request : String → Option Bool → TranscribeRequest
request token enable = record {
  room_token = token;
  enable = enable;
  lang_id = "fr";
  language_id = "";
  turn_servers = [];
}

abbrev no_rooms : Manager
no_rooms = record { rooms = []; config = settings }

abbrev calls : List ServiceEvent
calls =
    transcribe_request reachable (some (request "t1" none))
    ∷ room_event "t1" (has_session "bot")
    ∷ room_event "t1" (delivered 5 (update_of (alice ∷ bot ∷ [])))
    ∷ transcribe_request unreachable (some (request "t2" none))
    ∷ transcribe_request reachable (some (request "t3" none))
    ∷ stop_request "t3"
    ∷ []

-- The two room joins and the speaker that the messages bring
abbrev summary : String × Room → String × (ℕ × String)
summary (token, r) = (token, (length r.speakers, r.language_id))

calls_run :
    map summary (service_run lab in_order calls (new_manager_of settings)).rooms
    ≡ ("t1", (1, "fr")) ∷ []
unfolding service_run service_step handle_stop_request leave_room lookup handle_transcribe_request
    transcribe join_room room_input new_manager_of insert delete keys room_step handle_hpb_message
    handle_event_message handle_participants_event handle_users handle_user apply_verdict
    new_pipeline new_resampler get_field requested_language supported_language in_call_flags
    is_stale judge session_of display_name add_speaker enter_speaker remove_speaker create_peer
    remove_peer get_peer new_manager remove_all
calls_run = refl

service_run-IsServed_example :
    AllRooms IsServed (service_run lab in_order calls (new_manager_of settings))
service_run-IsServed_example = service_run-IsServed lab in_order settings calls

service_run-board_example :
    board_of (service_run lab in_order calls no_rooms) ≡ board_run calls (board_of no_rooms)
service_run-board_example = service_run-board lab in_order (λ ks k h. h) calls no_rooms

failed_unchanged_example :
    let transcribed =
      handle_transcribe_request unreachable in_order (some (request "t2" none)) one_room in
    let left = handle_stop_request in_order "t9" one_room in
    ((transcribed.1.status ≡ status_ok) ⊎ (transcribed.0.rooms ≡ one_room.rooms))
    × ((left.1.status ≡ status_ok) ⊎ (left.0.rooms ≡ one_room.rooms))
failed_unchanged_example =
    failed_unchanged unreachable in_order (some (request "t2" none)) "t9" one_room

-- A second request, in English, for a room that the first one opened in French
abbrev in_english : TranscribeRequest
in_english = record (request "t2" none) { lang_id = "en" }

rejoin_keeps_language_example :
    let joined =
      (handle_transcribe_request reachable in_order (some (request "t2" none)) no_rooms).0 in
    let again = handle_transcribe_request reachable in_order (some in_english) joined in
    (again.1 ≡ respond status_ok (enabled true "en"))
    × (again.0 ≡ joined)
    × (lookup "t2" again.0.rooms ≡ some (new_room "t2" "fr" [] service))
unfolding requested_language supported_language lookup
rejoin_keeps_language_example =
    rejoin_keeps_language reachable reachable in_order (request "t2" none) in_english no_rooms refl
      refl refl refl refl refl
