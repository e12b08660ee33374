-- ===== src/Session/Room/Handlers.antt =====
-- pkg/session/manager.go: `handleHPBMessage` and the handlers that it calls.
use nc_kyutai_live_transcrip.Prelude.{
  List, Option, String, [], if◌then◌else◌, none, some, str_eq, ℕ, ◌>>=◌, ◌∷◌,
}
use nc_kyutai_live_transcrip.Json.{Fields, get_field, string_or_empty, as_string, as_object}
use nc_kyutai_live_transcrip.Modal.Client.{is_empty}
use nc_kyutai_live_transcrip.Hpb.Types.{
  HpbMessage, hello, room, event, message, bye, MessageMessage, MessageParty, EventMessage,
  EventSessionEntry,
}
use nc_kyutai_live_transcrip.Webrtc.Manager.{get_peer}
use nc_kyutai_live_transcrip.Session.Room.{
  Room, Environment, sent, candidate, record_effect, answer_message, remove_speaker, note_internal,
  handle_participants_event,
}

-- The join entries of `handleRoomEvent`: the bot's own session is noted.
unfoldable pub note_joins : List EventSessionEntry → Room → Room
note_joins [] r = r
note_joins (entry ∷ entries) r =
    note_joins entries
      (if str_eq entry.session_id r.own_session then note_internal entry.session_id r else r)

-- Its leave entries.
unfoldable pub remove_all : List String → Room → Room
remove_all [] r = r
remove_all (session_id ∷ ids) r = remove_all ids (remove_speaker session_id r).0

-- `handleRoomEvent`
unfoldable pub handle_room_event : EventMessage → Room → Room
handle_room_event msg r = remove_all msg.leaves (note_joins msg.joins r)

-- `Sender`, and then the "from" field where it is not empty.
abbrev pub sender_of : Option MessageParty → String
sender_of none = ""
sender_of (some party) = party.session_id

abbrev pub origin : Fields → String → String
origin payload sender =
    let from = string_or_empty (get_field "from" payload) in if is_empty from then sender else from

-- The session description of an offer: the "sdp" text of its "payload" object.
abbrev pub offered_sdp : Fields → Option String
offered_sdp payload =
    as_object (get_field "payload" payload) >>= λ inner. as_string (get_field "sdp" inner)

-- The candidate: the "candidate" object, or the "payload" object.
abbrev pub candidate_of : Fields → Option Fields
candidate_of payload = elim (as_object (get_field "candidate" payload)) [
  | some c ↦ some c
  | none ↦ as_object (get_field "payload" payload)
]

module _ (env : Environment) where
  -- `handleOffer`
  unfoldable pub handle_offer : String → String → Room → Room
  handle_offer session_id sdp r = elim (get_peer session_id r.webrtc_mgr) [
    | none ↦ r
    | some peer ↦ elim (env.answer_to session_id sdp) [
      | none ↦ r
      | some answer ↦ record_effect (sent (answer_message session_id answer)) r
    ]
  ]

  -- `handleICECandidate`; an error of the peer is only logged.
  unfoldable pub handle_ice_candidate : String → Fields → Room → Room
  handle_ice_candidate session_id cand r = elim (get_peer session_id r.webrtc_mgr) [
    | none ↦ r
    | some peer ↦ record_effect (candidate session_id cand) r
  ]

  -- `handleSignalingMessage` for data of a message from the given sender
  unfoldable pub handle_signaling_data : String → Fields → Room → Room
  handle_signaling_data sender payload r =
      let kind = string_or_empty (get_field "type" payload) in
      if str_eq kind "offer"
      then (elim (offered_sdp payload) [
        | none ↦ r
        | some sdp ↦ handle_offer (origin payload sender) sdp r
      ])
      else if str_eq kind "candidate"
      then (elim (candidate_of payload) [
        | none ↦ r
        | some c ↦ handle_ice_candidate (origin payload sender) c r
      ])
      else r

  -- `handleSignalingMessage`
  unfoldable pub handle_signaling_message : MessageMessage → Room → Room
  unfolding handle_signaling_data
  handle_signaling_message msg r = elim msg.message.payload [
    | none ↦ r
    | some payload ↦ handle_signaling_data (sender_of msg.message.sender) payload r
  ]

  -- `handleEventMessage`, at the time at which a participants update is handled
  unfoldable pub handle_event_message : ℕ → EventMessage → Room → Room
  handle_event_message now msg r =
      if str_eq msg.target "room"
      then handle_room_event msg r
      else if str_eq msg.target "participants"
      then handle_participants_event env now msg.update r
      else r

  -- `handleHPBMessage`
  unfoldable pub handle_hpb_message : ℕ → HpbMessage → Room → Room
  handle_hpb_message now (room m) r = r
  handle_hpb_message now (event m) r = handle_event_message now m r
  handle_hpb_message now (message m) r = handle_signaling_message m r
  handle_hpb_message now (bye m) r = (remove_speaker m.session_id r).0
  handle_hpb_message now (hello m) r = r

  -- The messages that the loop of the room takes, each with the time at which it does.
  unfoldable pub handle_messages : List (ℕ × HpbMessage) → Room → Room
  handle_messages [] r = r
  handle_messages ((now, m) ∷ ms) r = handle_messages ms (handle_hpb_message now m r)
