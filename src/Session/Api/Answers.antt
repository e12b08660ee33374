-- ===== src/Session/Api/Answers.antt =====
-- What the two handlers of pkg/session/api.go answer.
use Prim.Native.String
use nc_kyutai_live_transcrip.Prelude.{
  List, Option, String, arith, false, has, if◌then◌else◌, inr, insert, lookup, lookup-delete,
  lookup-insert, none, refl, some, str_eq, str_eq_iff, str_eq_refl, true, ◌∙◌, ◌≡◌, ◌⊎◌,
}
use nc_kyutai_live_transcrip.Modal.Client.{is_empty}
use nc_kyutai_live_transcrip.Session.Manager.{Manager, Signaling, new_room, join_room, leave_room}
use nc_kyutai_live_transcrip.Session.Api.{
  TranscribeRequest, error, enabled, respond, requested_language, supported_language, status_ok,
  status_internal_server_error, wants, transcribe, handle_transcribe_request, handle_stop_request,
}

-- The error of an attempt to join a room that is not joined yet.
abbrev pub join_failure : Signaling → Option String
join_failure sig = elim sig.connect_error [
  | some e ↦ some (String.◌++◌ "failed to connect to HPB: " e)
  | none ↦ elim sig.join_error [
    | some e ↦ some (String.◌++◌ "failed to join room: " e)
    | none ↦ none
  ]
]

-- A failed request changes nothing: each handler answers with the status 200, or leaves the rooms
-- as they were before the request.
pub failed_unchanged :
    (sig : Signaling) (order : List String → List String) (body : Option TranscribeRequest)
    (token : String) (m : Manager)
    → let transcribed = handle_transcribe_request sig order body m in
      let left = handle_stop_request order token m in
      ((transcribed.1.status ≡ status_ok) ⊎ (transcribed.0.rooms ≡ m.rooms))
      × ((left.1.status ≡ status_ok) ⊎ (left.0.rooms ≡ m.rooms))
unfolding handle_transcribe_request handle_stop_request transcribe join_room leave_room
failed_unchanged sig order none token m = (inr refl, ground arith)
failed_unchanged sig order (some req) token m = (ground arith, ground arith)

-- A request to transcribe a room that is not joined, with a token and not disabled, is answered
-- with 500 if the signaling server cannot be connected to or the room not be joined there, with the
-- rooms as they were. Else the answer is 200 with the supported language, and a room with that
-- language and the request's TURN servers is joined under the token, the other rooms staying.
pub transcribe-new_room :
    (sig : Signaling) (order : List String → List String) (req : TranscribeRequest) (m : Manager)
    → is_empty req.room_token ≡ false
    → wants req.enable ≡ true
    → has req.room_token m.rooms ≡ false
    → let lang = supported_language (requested_language req) in
      handle_transcribe_request sig order (some req) m ≡ (elim (join_failure sig) [
        | some e ↦ (m, respond status_internal_server_error (error e))
        | none ↦ (
          record m {
            rooms =
                insert req.room_token
                  (new_room req.room_token lang req.turn_servers m.config.modal)
                  m.rooms;
          },
          respond status_ok (enabled true lang),
        )
      ])
unfolding handle_transcribe_request transcribe join_room
transcribe-new_room sig order req m named on absent = rw (named, on, absent) (ground arith)

-- A request to transcribe a room that is joined already is answered as if the room were transcribed
-- in the requested language, and no room changes: the room keeps the language it was joined with.
pub transcribe-joined_room :
    (sig : Signaling) (order : List String → List String) (req : TranscribeRequest) (m : Manager)
    → is_empty req.room_token ≡ false
    → wants req.enable ≡ true
    → has req.room_token m.rooms ≡ true
    → handle_transcribe_request sig order (some req) m
      ≡ (m, respond status_ok (enabled true (supported_language (requested_language req))))
unfolding handle_transcribe_request transcribe join_room
transcribe-joined_room sig order req m named on there = rw (named, on, there) refl

-- Two requests to transcribe one room, both enabled, with a token that was not joined, and a
-- signaling server that can be reached at the first: the second is answered with the supported
-- language of the one it asks for, which is English for a language that is not supported, but
-- changes nothing, and the room is still transcribed in the language of the first.
pub rejoin_keeps_language :
    (sig sig' : Signaling) (order : List String → List String) (first second : TranscribeRequest)
    (m : Manager)
    → is_empty first.room_token ≡ false
    → first.room_token ≡ second.room_token
    → wants first.enable ≡ true
    → wants second.enable ≡ true
    → has first.room_token m.rooms ≡ false
    → join_failure sig ≡ none
    → let joined = (handle_transcribe_request sig order (some first) m).0 in
      let again = handle_transcribe_request sig' order (some second) joined in
      (again.1 ≡ respond status_ok (enabled true (supported_language (requested_language second))))
      × (again.0 ≡ joined)
      × (lookup first.room_token again.0.rooms
          ≡ some (
              new_room first.room_token
                (supported_language (requested_language first))
                first.turn_servers
                m.config.modal))
rejoin_keeps_language sig sig' order first second m named same on on' absent up =
    let lang = supported_language (requested_language first) in
    let r = new_room first.room_token lang first.turn_servers m.config.modal in
    let m' : Manager = record m { rooms = insert first.room_token r m.rooms } in
    let step : (handle_transcribe_request sig order (some first) m).0 ≡ m' =
      ground (arith, transcribe-new_room sig order first m named on absent) in
    let found : lookup first.room_token m'.rooms ≡ some r =
      lookup-insert first.room_token first.room_token r m.rooms
      ∙ rw (str_eq_refl first.room_token) refl in
    let answer =
      transcribe-joined_room sig' order second m' (ground (arith, same)) on'
        (ground (arith, found, same)) in
    rw step (ground (arith, answer, found))

pub leave_room-lookup :
    (order : List String → List String) (token : String) (m : Manager) (t : String)
    → lookup t (leave_room order token m).0.rooms
      ≡ (if str_eq token t then none else lookup t m.rooms)
unfolding leave_room
leave_room-lookup order token m t =
    ground (arith, str_eq_iff token t, lookup-delete token t m.rooms)

-- After a request to disable a room, and after one to stop it, with a token, the room is not joined
-- and every other room is what it was. To disable is answered with 200 whether or not the room was
-- joined; to stop is answered with 200 if it was, and else with 500.
pub disable-stop :
    (sig : Signaling) (order : List String → List String) (req : TranscribeRequest) (m : Manager)
    → is_empty req.room_token ≡ false
    → req.enable ≡ some false
    → let disable = handle_transcribe_request sig order (some req) m in
      let stop = handle_stop_request order req.room_token m in
      (disable.0 ≡ stop.0)
      × ((t : String)
          → lookup t stop.0.rooms ≡ (if str_eq req.room_token t then none else lookup t m.rooms))
      × (disable.1.status ≡ status_ok)
      × (stop.1.status
          ≡ (if has req.room_token m.rooms then status_ok else status_internal_server_error))
unfolding handle_transcribe_request handle_stop_request transcribe leave_room
disable-stop sig order req m named off = (
  ground arith,
  λ t. ground (arith, str_eq_iff req.room_token t, leave_room-lookup order req.room_token m t),
  ground arith,
  ground arith,
)
