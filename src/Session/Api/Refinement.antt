-- ===== src/Session/Api/Refinement.antt =====
-- What the service promises: a board that says of each token whether the room is transcribed, and
-- in which language. The handlers of pkg/session/api.go, with the manager behind them, implement
-- it.
use mathlib.Core.Path.{fun_ext}
use nc_kyutai_live_transcrip.Prelude.{
  Bool-cases, List, Listed, Listed-keys, Option, Option-cases, String, [], ap, arith, has,
  has-false, if◌then◌else◌, inl, inr, is_some, keys, lookup, lookup-insert, none, refl, some,
  str_eq, str_eq_iff, ◌||◌, ◌∙◌, ◌∷◌, ◌≡◌, ◌⊎◌,
}
use nc_kyutai_live_transcrip.Modal.Client.{is_empty}
use nc_kyutai_live_transcrip.Session.Room.{Room, Environment}
use nc_kyutai_live_transcrip.Session.Room.Messages.{handle_hpb_message-Serves}
use nc_kyutai_live_transcrip.Session.Manager.{
  Manager, new_room, Signaling, RoomInput, has_session, delivered, room_step, room_input, leave_all,
  close, join_room,
}
use nc_kyutai_live_transcrip.Session.Manager.Leaving.{VisitsAll}
use nc_kyutai_live_transcrip.Session.Api.{
  TranscribeRequest, supported_language, requested_language, wants, transcribe,
  handle_transcribe_request, handle_stop_request,
}
use nc_kyutai_live_transcrip.Session.Api.Answers.{join_failure, leave_room-lookup}
use nc_kyutai_live_transcrip.Session.Api.Service.{
  ServiceEvent, transcribe_request, stop_request, room_event, shut_down, service_step, service_run,
}

abbrev pub Board : Type 0
Board = String → Option String

abbrev pub blank : Board
blank t = none

-- The board with another entry for a token
abbrev pub write : String → Option String → Board → Board
write token entry b t = if str_eq token t then entry else b t

-- A room that is on the board stays as it is, and one that cannot be joined stays off it.
abbrev pub put_up : Signaling → String → String → Board → Board
put_up sig token lang b =
    if is_some (b token) || is_some (join_failure sig) then b else write token (some lang) b

-- What an event does to the board
abbrev pub board_step : ServiceEvent → Board → Board
board_step (transcribe_request sig none) b = b
board_step (transcribe_request sig (some req)) b =
    if is_empty req.room_token
    then b
    else if wants req.enable
    then put_up sig req.room_token (supported_language (requested_language req)) b
    else write req.room_token none b
board_step (stop_request token) b = if is_empty token then b else write token none b
board_step (room_event token input) b = b
board_step shut_down b = blank

abbrev pub board_run : List ServiceEvent → Board → Board
board_run [] b = b
board_run (e ∷ es) b = board_run es (board_step e b)

-- The board of a manager: the languages of the joined rooms.
abbrev pub board_of : Manager → Board
board_of m t = elim (lookup t m.rooms) [ none ↦ none | some r ↦ some r.language_id ]

room_step-language :
    (env : Environment) (input : RoomInput) (r : Room)
    → (room_step env input r).language_id ≡ r.language_id
unfolding room_step
room_step-language env (has_session s) r = refl
room_step-language env (delivered now m) r =
    (handle_hpb_message-Serves r.room_token r.language_id env now m r (refl, refl)).1

room_input-board :
    (env : Environment) (token : String) (input : RoomInput) (m : Manager) (t : String)
    → board_of (room_input env token input m) t ≡ board_of m t
unfolding room_input
room_input-board env token input m t = elim (Option-cases (lookup token m.rooms)) [
  | inl absent ↦ rw (absent, room_input) refl
  | inr (r, there) ↦
      rw (there, room_input)
        (ground (
          arith,
          str_eq_iff token t,
          lookup-insert token t (room_step env input r) m.rooms,
          room_step-language env input r,
        ))
]

leave_all-lookup :
    (order : List String → List String) (tokens : List String) (m : Manager) (t : String)
    → (Listed t tokens ⊎ (lookup t m.rooms ≡ none))
    → lookup t (leave_all order tokens m).rooms ≡ none
unfolding leave_all
leave_all-lookup order [] m t (inl listed) = absurd listed
leave_all-lookup order [] m t (inr absent) = absent
leave_all-lookup order (k ∷ ks) m t (inl (inl same)) =
    leave_all-lookup order ks _ t
      (inr (leave_room-lookup order k m t ∙ rw ((str_eq_iff k t).1 same) refl))
leave_all-lookup order (k ∷ ks) m t (inl (inr later)) = leave_all-lookup order ks _ t (inl later)
leave_all-lookup order (k ∷ ks) m t (inr absent) =
    leave_all-lookup order ks _ t (inr (ground (arith, leave_room-lookup order k m t)))

pub close-lookup :
    (order : List String → List String) (m : Manager) (t : String)
    → VisitsAll order
    → lookup t (close order m).rooms ≡ none
unfolding close
close-lookup order m t visits =
    leave_all-lookup order (order (keys m.rooms)) m t (elim (Bool-cases (has t m.rooms)) [
      | inl there ↦ inl (visits (keys m.rooms) t (Listed-keys t m.rooms there))
      | inr absent ↦ inr (has-false t m.rooms absent)
    ])

transcribe-board :
    (sig : Signaling) (order : List String → List String) (req : TranscribeRequest) (m : Manager)
    (t : String)
    → board_of (transcribe sig order req m).0 t
      ≡ board_step (transcribe_request sig (some req)) (board_of m) t
unfolding transcribe join_room
transcribe-board sig order req m t =
    let lang = supported_language (requested_language req) in
    ground (
      arith,
      str_eq_iff req.room_token t,
      leave_room-lookup order req.room_token m t,
      lookup-insert req.room_token t (new_room req.room_token lang req.turn_servers m.config.modal)
          m.rooms,
    )

stop-board :
    (order : List String → List String) (token : String) (m : Manager) (t : String)
    → board_of (handle_stop_request order token m).0 t
      ≡ board_step (stop_request token) (board_of m) t
unfolding handle_stop_request
stop-board order token m t = ground (arith, leave_room-lookup order token m t)

module _ (env : Environment) (order : List String → List String) (visits : VisitsAll order) where
  service_step-board :
      (e : ServiceEvent) (m : Manager)
      → board_of (service_step env order e m) ≡ board_step e (board_of m)
  unfolding service_step handle_transcribe_request
  service_step-board (transcribe_request sig none) m = refl
  service_step-board (transcribe_request sig (some req)) m =
      fun_ext (transcribe-board sig order req m)
  service_step-board (stop_request token) m = fun_ext (stop-board order token m)
  service_step-board (room_event token input) m = fun_ext (room_input-board env token input m)
  service_step-board shut_down m = fun_ext (λ t. ground (arith, close-lookup order m t visits))

  -- The service implements its board: after any requests, messages to rooms and shutdowns, from any
  -- manager, in whatever order maps are ranged over, if it visits every key: the joined rooms and
  -- their languages are those that the same events give on the board. Messages to a room change
  -- nothing on it. Like the handler, the board takes a request in a language that is not supported
  -- as one in English.
  pub service_run-board :
      (es : List ServiceEvent) (m : Manager)
      → board_of (service_run env order es m) ≡ board_run es (board_of m)
  unfolding service_run
  service_run-board [] m = refl
  service_run-board (e ∷ es) m =
      service_run-board es (service_step env order e m) ∙ ap (board_run es) (service_step-board e m)
