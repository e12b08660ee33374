-- ===== src/Session/Room/Cases.antt =====
-- The ways that a signaling message can change a room, as a rule for any predicate.
use nc_kyutai_live_transcrip.Prelude.{
  Bool, Bool-cases, List, Option, Option-cases, String, [], false, if◌then◌else◌, inl, inr, none,
  some, str_eq, true, ℕ, ◌&&◌, ◌∷◌,
}
use nc_kyutai_live_transcrip.Json.{Fields, get_field, string_or_empty}
use nc_kyutai_live_transcrip.Hpb.Types.{
  HpbMessage, hello, room, event, message, bye, MessageMessage, EventMessage, EventSessionEntry,
  RoomEventUpdate,
}
use nc_kyutai_live_transcrip.Session.Participant.{
  Verdict, skip, mark_internal, discard, admit, session_of, judge,
}
use nc_kyutai_live_transcrip.Webrtc.Manager.{get_peer}
use nc_kyutai_live_transcrip.Session.Room.{
  Room, Environment, sent, candidate, record_effect, answer_message, note_internal, is_internal,
  call_ended, listed_users, remove_speaker, add_speaker, apply_verdict, handle_user, handle_users,
  handle_participants_event,
}
use nc_kyutai_live_transcrip.Session.Room.Handlers.{
  sender_of, origin, offered_sdp, candidate_of, handle_offer, handle_ice_candidate,
  handle_signaling_data, handle_signaling_message, note_joins, remove_all, handle_room_event,
  handle_event_message, handle_hpb_message,
}

module _ {ℓ} (env : Environment) (P : Room → Type ℓ) (r : Room) (same : P r)
    (answered : (m : MessageMessage) → P (record_effect (sent m) r))
    (forwarded : (k : String) (c : Fields) → P (record_effect (candidate k c) r)) where
  offer_cases : (k sdp : String) → P (handle_offer env k sdp r)
  unfolding handle_offer
  offer_cases k sdp = elim (Option-cases (get_peer k r.webrtc_mgr)) [
    | inl no_peer ↦ rw (no_peer, handle_offer) same
    | inr (peer, e) ↦ elim (Option-cases (env.answer_to k sdp)) [
      | inl refused ↦ rw (e, handle_offer) (rw (refused, handle_offer) same)
      | inr (answer, f) ↦ rw (e, handle_offer) (rw f (answered (answer_message k answer)))
    ]
  ]

  candidate_cases : (k : String) (c : Fields) → P (handle_ice_candidate env k c r)
  unfolding handle_ice_candidate
  candidate_cases k c = elim (Option-cases (get_peer k r.webrtc_mgr)) [
    | inl no_peer ↦ rw (no_peer, handle_ice_candidate) same
    | inr (peer, e) ↦ rw (e, handle_ice_candidate) (forwarded k c)
  ]

  payload_cases :
      (sender : String) (payload : Fields) → P (handle_signaling_data env sender payload r)
  unfolding handle_signaling_data
  payload_cases sender payload =
      let kind = string_or_empty (get_field "type" payload) in
      elim (Bool-cases (str_eq kind "offer")) [
        | inl offer ↦ elim (Option-cases (offered_sdp payload)) [
          | inl bad ↦ rw offer (rw (bad, handle_signaling_data) same)
          | inr (sdp, e) ↦ rw offer (rw e (offer_cases (origin payload sender) sdp))
        ]
        | inr other ↦ elim (Bool-cases (str_eq kind "candidate")) [
          | inr unknown ↦ rw (other, unknown) same
          | inl cand ↦ elim (Option-cases (candidate_of payload)) [
            | inl bad ↦ rw (other, cand) (rw (bad, handle_signaling_data) same)
            | inr (c, e) ↦ rw (other, cand) (rw e (candidate_cases (origin payload sender) c))
          ]
        ]
      ]

  -- A signaling message leaves the room, sends one message, or hands a peer one candidate.
  pub signaling_cases : (msg : MessageMessage) → P (handle_signaling_message env msg r)
  unfolding handle_signaling_message
  signaling_cases msg = elim (Option-cases msg.message.payload) [
    | inl nothing ↦ rw (nothing, handle_signaling_message) same
    | inr (payload, e) ↦
        rw (e, handle_signaling_message) (payload_cases (sender_of msg.message.sender) payload)
  ]

-- What every primitive change of a room keeps, every message keeps.
module _ {ℓ} (env : Environment) (P : Room → Type ℓ)
    (noted : (k : String) (r : Room) → P r → P (note_internal k r))
    (removed : (k : String) (r : Room) → P r → P (remove_speaker k r).0)
    (added : (k user_id name : String) (r : Room) → P r → P (add_speaker env k user_id name r).0)
    (answered : (m : MessageMessage) (r : Room) → P r → P (record_effect (sent m) r))
    (forwarded : (k : String) (c : Fields) (r : Room)
      → P r
      → P (record_effect (candidate k c) r)) where
  verdict_keeps : (d : Verdict) (user : Fields) (r : Room) → P r → P (apply_verdict env d user r)
  unfolding apply_verdict
  verdict_keeps skip user r v = v
  verdict_keeps mark_internal user r v = removed (session_of user) _ (noted (session_of user) r v)
  verdict_keeps discard user r v = removed (session_of user) r v
  verdict_keeps admit user r v = added (session_of user) _ _ r v

  users_keep : (now : ℕ) (users : List Fields) (r : Room) → P r → P (handle_users env now users r)
  unfolding handle_users handle_user
  users_keep now [] r v = v
  users_keep now (user ∷ users) r v =
      users_keep now users (handle_user env now user r)
        (verdict_keeps (judge (is_internal r) now user) user r v)

  participants_keep :
      (now : ℕ) (u : Option RoomEventUpdate) (r : Room)
      → P r
      → P (handle_participants_event env now u r)
  unfolding handle_participants_event
  participants_keep now none r v = v
  participants_keep now (some u) r v = elim (Bool-cases (u.all && call_ended u.in_call)) [
    | inl ended ↦ rw ended v
    | inr on ↦ rw on (users_keep now (listed_users u) r v)
  ]

  joins_keep : (entries : List EventSessionEntry) (r : Room) → P r → P (note_joins entries r)
  unfolding note_joins
  joins_keep [] r v = v
  joins_keep (entry ∷ entries) r v =
      joins_keep entries _ (own (str_eq entry.session_id r.own_session))
    where
      own : (b : Bool) → P (if b then note_internal entry.session_id r else r)
      own true = noted entry.session_id r v
      own false = v

  pub removals_keep : (ids : List String) (r : Room) → P r → P (remove_all ids r)
  unfolding remove_all
  removals_keep [] r v = v
  removals_keep (k ∷ ids) r v = removals_keep ids _ (removed k r v)

  event_keeps :
      (now : ℕ) (msg : EventMessage) (r : Room) → P r → P (handle_event_message env now msg r)
  unfolding handle_event_message handle_room_event
  event_keeps now msg r v = elim (Bool-cases (str_eq msg.target "room")) [
    | inl in_room ↦ rw in_room (removals_keep msg.leaves _ (joins_keep msg.joins r v))
    | inr other ↦ elim (Bool-cases (str_eq msg.target "participants")) [
      | inl them ↦ rw (other, them) (participants_keep now msg.update r v)
      | inr unknown ↦ rw (other, unknown) v
    ]
  ]

  pub message_keeps :
      (now : ℕ) (m : HpbMessage) (r : Room) → P r → P (handle_hpb_message env now m r)
  unfolding handle_hpb_message
  message_keeps now (hello m) r v = v
  message_keeps now (room m) r v = v
  message_keeps now (event m) r v = event_keeps now m r v
  message_keeps now (bye m) r v = removed m.session_id r v
  message_keeps now (message m) r v =
      signaling_cases env P r v (λ a. answered a r v) (λ k c. forwarded k c r v) m
