-- ===== src/Session/Room.antt =====
-- pkg/session/manager.go: `Room` and its handlers of the signaling server's messages. The room's
-- loop handles one message at a time, and each call below is one such step.
pub mod Handlers
pub mod Synchrony
pub mod Cases
pub mod Messages
pub mod Admission
pub mod Internal
pub mod Addressed
use nc_kyutai_live_transcrip.Prelude.{
  Bool, Dict, List, Option, String, [], delete, false, has, if◌then◌else◌, insert, is_some, leb,
  length, lookup, none, not, pos, some, true, ℕ, ◌&&◌, ◌++◌, ◌∷◌,
}
use nc_kyutai_live_transcrip.Json.{
  Value, string, object, Fields, field, end, get_field, string_or_empty, as_string, as_object,
  as_double, double_is_zero,
}
use nc_kyutai_live_transcrip.Audio.Floats.{Floats}
use nc_kyutai_live_transcrip.Audio.Pipeline.{new_pipeline}
use nc_kyutai_live_transcrip.Modal.Client.{Config, is_empty}
use nc_kyutai_live_transcrip.Hpb.Types.{
  HpbMessage, hello, room, event, message, bye, MessageMessage, MessageEnvelope, MessageParty,
  EventMessage, EventSessionEntry, RoomEventUpdate,
}
use nc_kyutai_live_transcrip.Webrtc.Manager.{Manager, create_peer, get_peer, remove_peer}
use nc_kyutai_live_transcrip.Session.Participant.{
  Verdict, skip, mark_internal, discard, admit, session_of, display_name, judge,
}

-- `Speaker`; its transcriber is the pair of goroutines that the effects below start and stop.
pub record Speaker : Type 0 where
  pub session_id : String
  pub user_id : String
  pub name : String

-- What a handler does besides changing the room: it starts a transcriber, or cancels one and waits
-- for it, it hands the signaling client a message, or a peer a candidate.
pub data Effect : Type 0 where
  started stopped : String → Effect
  sent : MessageMessage → Effect
  candidate : String → Fields → Effect

-- `Room`. Of its signaling client it keeps `own_session`, what that answers to `SessionID`, and
-- `hpb_closed`, whether it was closed. The code keeps no list of what it did: `trace` is that list,
-- oldest first.
pub record Room : Type 0 where
  pub room_token : String
  pub language_id : String
  pub own_session : String
  pub hpb_closed : Bool
  pub webrtc_mgr : Manager
  pub speakers : Dict Speaker
  pub modal_clients : Dict Config
  pub modal_config : Config
  pub internal_sessions : Dict Bool
  pub trace : List Effect

-- The libraries' part: whether a peer connection can be made for a session, and the answer that
-- the session's peer gives to an offer, if it does.
pub record Environment : Type 1 where
  pub floats : Floats
  pub peer_made : String → Bool
  pub answer_to : String → String → Option String

abbrev pub max_room_speakers : ℕ
max_room_speakers = 100

abbrev pub record_effect : Effect → Room → Room
record_effect e r = record r { trace = r.trace ++ e ∷ [] }

-- A message to a session, as `addSpeaker` and `handleOffer` build it.
abbrev pub message_to : String → Fields → MessageMessage
message_to session_id payload = record {
  id = "";
  message = record {
    sender = none;
    recipient = some (record { kind = "session"; session_id = session_id; user_id = "" });
    payload = some payload;
  };
}

abbrev pub request_offer : String → MessageMessage
request_offer session_id =
    message_to session_id
      (field "type" (string "requestoffer") (field "roomType" (string "video") end))

abbrev pub answer_message : String → String → MessageMessage
answer_message session_id sdp = message_to session_id (
    field "type" (string "answer") (
      field "roomType" (string "video") (
        field "to" (string session_id) (
          field "payload" (object (field "type" (string "answer") (field "sdp" (string sdp) end)))
            end))))

-- `removeSpeaker`; `false` is its error.
unfoldable pub remove_speaker : String → Room → Room × Bool
remove_speaker session_id r =
    if has session_id r.speakers
    then (
      record r {
        speakers = delete session_id r.speakers;
        modal_clients = delete session_id r.modal_clients;
        webrtc_mgr = (remove_peer session_id r.webrtc_mgr).0;
        trace = r.trace ++ stopped session_id ∷ [];
      },
      true,
    )
    else (r, false)

-- The part of `addSpeaker` behind its checks: the speaker is entered and its transcriber started.
unfoldable pub enter_speaker : String → String → String → Room → Room
enter_speaker session_id user_id name r = record r {
  speakers =
      insert session_id (record { session_id = session_id; user_id = user_id; name = name })
        r.speakers;
  modal_clients = insert session_id r.modal_config r.modal_clients;
  trace = r.trace ++ started session_id ∷ sent (request_offer session_id) ∷ [];
}

abbrev pub with_webrtc : Manager → Room → Room
with_webrtc m r = record r { webrtc_mgr = m }

-- `internalSessions[sessionID] = true`
abbrev pub note_internal : String → Room → Room
note_internal session_id r = record r {
  internal_sessions = insert session_id true r.internal_sessions;
}

-- `r.internalSessions[sessionID]`
abbrev pub is_internal : Room → String → Bool
is_internal r session_id = elim (lookup session_id r.internal_sessions) [
  | none ↦ false
  | some b ↦ b
]

-- `incall, ok := update.InCall.(float64); ok && incall == 0`
abbrev pub call_ended : Option Value → Bool
call_ended v = elim (as_double v) [ none ↦ false | some d ↦ double_is_zero d ]

-- `Users`, or `Changed` where that is empty.
abbrev pub listed_users : RoomEventUpdate → List Fields
listed_users u = elim u.users [ [] ↦ u.changed | x ∷ xs ↦ x ∷ xs ]

module _ (env : Environment) where
  -- `addSpeaker`; `false` is an error.
  unfoldable pub add_speaker : String → String → String → Room → Room × Bool
  add_speaker session_id user_id name r =
      let (mgr, made) = create_peer (env.peer_made session_id) session_id r.webrtc_mgr in
      if has session_id r.speakers
      then (r, true)
      else if leb max_room_speakers (length r.speakers)
      then (r, false)
      else if not made
      then (r, false)
      else if is_some (new_pipeline env.floats (pos 48000) (pos 24000))
      then (enter_speaker session_id user_id name (with_webrtc mgr r), true)
      else (with_webrtc (remove_peer session_id mgr).0 r, false)

  -- One entry of a participants update, in the branch that it is judged to.
  unfoldable pub apply_verdict : Verdict → Fields → Room → Room
  apply_verdict skip user r = r
  apply_verdict mark_internal user r =
      (remove_speaker (session_of user) (note_internal (session_of user) r)).0
  apply_verdict discard user r = (remove_speaker (session_of user) r).0
  apply_verdict admit user r =
      (add_speaker (session_of user) (string_or_empty (get_field "userId" user)) (display_name user)
        r).0

  unfoldable pub handle_user : ℕ → Fields → Room → Room
  handle_user now user r = apply_verdict (judge (is_internal r) now user) user r

  unfoldable pub handle_users : ℕ → List Fields → Room → Room
  handle_users now [] r = r
  handle_users now (user ∷ users) r = handle_users now users (handle_user now user r)

  -- `handleParticipantsEvent`
  unfoldable pub handle_participants_event : ℕ → Option RoomEventUpdate → Room → Room
  handle_participants_event now none r = r
  handle_participants_event now (some u) r =
      if u.all && call_ended u.in_call then r else handle_users now (listed_users u) r
