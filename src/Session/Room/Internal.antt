-- ===== src/Session/Room/Internal.antt =====
-- The bot's own sessions stay out of the speakers.
use nc_kyutai_live_transcrip.Prelude.{
  Bool, Bool-cases, List, Option, String, [], ap, arith, false, has, if◌then◌else◌, inl, inr,
  lookup-insert, none, refl, some, str_eq, str_eq_iff, true, ℕ, ◌&&◌, ◌∙◌, ◌∷◌, ◌≡◌, ◌≢◌,
}
use nc_kyutai_live_transcrip.Json.{Fields}
use nc_kyutai_live_transcrip.Hpb.Types.{
  HpbMessage, hello, room, event, message, bye, EventMessage, EventSessionEntry, RoomEventUpdate,
}
use nc_kyutai_live_transcrip.Session.Participant.{
  Verdict, skip, mark_internal, discard, admit, session_of, judge,
}
use nc_kyutai_live_transcrip.Session.Room.{
  Room, Environment, note_internal, is_internal, call_ended, listed_users, remove_speaker,
  enter_speaker, add_speaker, apply_verdict, handle_user, handle_users, handle_participants_event,
}
use nc_kyutai_live_transcrip.Session.Room.Handlers.{
  note_joins, remove_all, handle_room_event, handle_event_message, handle_hpb_message,
  handle_messages,
}
use nc_kyutai_live_transcrip.Session.Room.Cases.{signaling_cases}
use nc_kyutai_live_transcrip.Session.Room.Admission.{
  speaker_after, remove_speaker-speakers, handle_user-speakers, judge-eq-admit_iff,
}

-- The session is noted as the bot's own, and is no speaker.
pub record IsOut (s : String) (r : Room) : Type 0 where
  pub noted : is_internal r s ≡ true
  pub out : has s r.speakers ≡ false

note_internal-noted :
    (k s : String) (r : Room) → is_internal r s ≡ true → is_internal (note_internal k r) s ≡ true
note_internal-noted k s r h = ground (arith, lookup-insert k s true r.internal_sessions)

remove_speaker-noted :
    (k s : String) (r : Room) → is_internal r s ≡ true → is_internal (remove_speaker k r).0 s ≡ true
unfolding remove_speaker
remove_speaker-noted k s r h = ground arith

remove_speaker-IsOut : (k s : String) (r : Room) → IsOut s r → IsOut s (remove_speaker k r).0
remove_speaker-IsOut k s r v = record {
  noted = remove_speaker-noted k s r v.noted;
  out = ground (arith, remove_speaker-speakers k s r, v.out);
}

module _ (env : Environment) where
  add_speaker-noted :
      (k user_id name s : String) (r : Room)
      → is_internal r s ≡ true
      → is_internal (add_speaker env k user_id name r).0 s ≡ true
  unfolding add_speaker enter_speaker
  add_speaker-noted k user_id name s r h = ground arith

  apply_verdict-noted :
      (d : Verdict) (user : Fields) (s : String) (r : Room)
      → is_internal r s ≡ true
      → is_internal (apply_verdict env d user r) s ≡ true
  unfolding apply_verdict
  apply_verdict-noted skip user s r h = h
  apply_verdict-noted mark_internal user s r h =
      remove_speaker-noted (session_of user) s (note_internal (session_of user) r)
        (note_internal-noted (session_of user) s r h)
  apply_verdict-noted discard user s r h = remove_speaker-noted (session_of user) s r h
  apply_verdict-noted admit user s r h = add_speaker-noted (session_of user) _ _ s r h

  -- An own session is never judged to be admitted.
  stays_out :
      (d : Verdict) (known : Bool) (n : ℕ) (s : String)
      → d ≢ admit
      → known ≡ false
      → speaker_after env d known n s ≡ false
  stays_out skip known n s h e = e
  stays_out mark_internal known n s h e = refl
  stays_out discard known n s h e = refl
  stays_out admit known n s h e = absurd (h refl)

  handle_user-IsOut :
      (now : ℕ) (user : Fields) (s : String) (r : Room)
      → IsOut s r
      → IsOut s (handle_user env now user r)
  unfolding handle_user
  handle_user-IsOut now user s r v = record {
    noted = apply_verdict-noted (judge (is_internal r) now user) user s r v.noted;
    out = handle_user-speakers env now user r s ∙ elim (Bool-cases (str_eq (session_of user) s)) [
      | inr other ↦ rw other v.out
      | inl same ↦ rw same (stays_out (judge (is_internal r) now user) _ _ s (refused same) v.out)
    ];
  }
    where
      refused : str_eq (session_of user) s ≡ true → judge (is_internal r) now user ≢ admit
      refused same e =
          let known = ((judge-eq-admit_iff (is_internal r) now user).0 e).2 in
          let at_s = ap (is_internal r) ((str_eq_iff (session_of user) s).0 same) in
          cc (v.noted, known, at_s)

  handle_users-IsOut :
      (now : ℕ) (users : List Fields) (s : String) (r : Room)
      → IsOut s r
      → IsOut s (handle_users env now users r)
  unfolding handle_users
  handle_users-IsOut now [] s r v = v
  handle_users-IsOut now (user ∷ users) s r v =
      handle_users-IsOut now users s _ (handle_user-IsOut now user s r v)

  handle_participants_event-IsOut :
      (now : ℕ) (u : Option RoomEventUpdate) (s : String) (r : Room)
      → IsOut s r
      → IsOut s (handle_participants_event env now u r)
  unfolding handle_participants_event
  handle_participants_event-IsOut now none s r v = v
  handle_participants_event-IsOut now (some u) s r v =
      elim (Bool-cases (u.all && call_ended u.in_call)) [
        | inl ended ↦ rw ended v
        | inr on ↦ rw on (handle_users-IsOut now (listed_users u) s r v)
      ]

note_joins-IsOut :
    (entries : List EventSessionEntry) (s : String) (r : Room)
    → IsOut s r
    → IsOut s (note_joins entries r)
unfolding note_joins
note_joins-IsOut [] s r v = v
note_joins-IsOut (entry ∷ entries) s r v =
    note_joins-IsOut entries s _ (noted (str_eq entry.session_id r.own_session))
  where
    noted : (b : Bool) → IsOut s (if b then note_internal entry.session_id r else r)
    noted true = record { noted = note_internal-noted entry.session_id s r v.noted; out = v.out }
    noted false = v

remove_all-IsOut :
    (ids : List String) (s : String) (r : Room) → IsOut s r → IsOut s (remove_all ids r)
unfolding remove_all
remove_all-IsOut [] s r v = v
remove_all-IsOut (k ∷ ids) s r v = remove_all-IsOut ids s _ (remove_speaker-IsOut k s r v)

module _ (env : Environment) where
  handle_event_message-IsOut :
      (now : ℕ) (msg : EventMessage) (s : String) (r : Room)
      → IsOut s r
      → IsOut s (handle_event_message env now msg r)
  unfolding handle_event_message handle_room_event
  handle_event_message-IsOut now msg s r v = elim (Bool-cases (str_eq msg.target "room")) [
    | inl in_room ↦ rw in_room (remove_all-IsOut msg.leaves s _ (note_joins-IsOut msg.joins s r v))
    | inr other ↦ elim (Bool-cases (str_eq msg.target "participants")) [
      | inl them ↦ rw (other, them) (handle_participants_event-IsOut env now msg.update s r v)
      | inr unknown ↦ rw (other, unknown) v
    ]
  ]

  handle_hpb_message-IsOut :
      (now : ℕ) (m : HpbMessage) (s : String) (r : Room)
      → IsOut s r
      → IsOut s (handle_hpb_message env now m r)
  unfolding handle_hpb_message
  handle_hpb_message-IsOut now (hello m) s r v = v
  handle_hpb_message-IsOut now (room m) s r v = v
  handle_hpb_message-IsOut now (event m) s r v = handle_event_message-IsOut now m s r v
  handle_hpb_message-IsOut now (bye m) s r v = remove_speaker-IsOut m.session_id s r v
  handle_hpb_message-IsOut now (message m) s r v =
      signaling_cases env (IsOut s) r v (λ a. record { noted = v.noted; out = v.out })
        (λ k c. record { noted = v.noted; out = v.out }) m

  -- A session that is noted as the bot's own and is no speaker never becomes one, whatever the
  -- server sends afterwards: also when later updates no longer flag it as internal.
  pub handle_messages-IsOut :
      (ms : List (ℕ × HpbMessage)) (s : String) (r : Room)
      → IsOut s r
      → IsOut s (handle_messages env ms r)
  unfolding handle_messages
  handle_messages-IsOut [] s r v = v
  handle_messages-IsOut ((now, m) ∷ ms) s r v =
      handle_messages-IsOut ms s (handle_hpb_message env now m r)
        (handle_hpb_message-IsOut now m s r v)
