-- ===== src/Session/Room/Messages.antt =====
-- What every message keeps of a room.
use nc_kyutai_live_transcrip.Prelude.{List, String, [], arith, refl, ℕ, ◌∷◌, ◌≡◌}
use nc_kyutai_live_transcrip.Hpb.Types.{HpbMessage}
use nc_kyutai_live_transcrip.Session.Room.{
  Room, Environment, remove_speaker, enter_speaker, add_speaker,
}
use nc_kyutai_live_transcrip.Session.Room.Handlers.{remove_all, handle_hpb_message, handle_messages}
use nc_kyutai_live_transcrip.Session.Room.Cases.{message_keeps}
use nc_kyutai_live_transcrip.Session.Room.Synchrony.{
  InSync, InSync-sent, InSync-candidate, InSync-note, remove_speaker-InSync, add_speaker-InSync,
}

pub remove_all-InSync : (ids : List String) (r : Room) → InSync r → InSync (remove_all ids r)
unfolding remove_all
remove_all-InSync [] r v = v
remove_all-InSync (k ∷ ids) r v = remove_all-InSync ids _ (remove_speaker-InSync k r v)

module _ (env : Environment) where
  pub handle_hpb_message-InSync :
      (now : ℕ) (m : HpbMessage) (r : Room) → InSync r → InSync (handle_hpb_message env now m r)
  handle_hpb_message-InSync =
      message_keeps env InSync (λ k r. InSync-note r k) remove_speaker-InSync
        (λ k u n r. add_speaker-InSync env k u n r (env.peer_made k) refl) (λ m r. InSync-sent r m)
        (λ k c r. InSync-candidate r k c)

  -- From a room that is in sync, as a new one is, whatever messages the signaling server sends, in
  -- whatever order, and whether or not peer connections can be made: in the room a session has a
  -- service client and a peer connection exactly when it is a speaker, there are at most a hundred
  -- speakers, and each session's transcriber was started once more than it was stopped if it is a
  -- speaker, and else as often.
  pub handle_messages-InSync :
      (ms : List (ℕ × HpbMessage)) (r : Room) → InSync r → InSync (handle_messages env ms r)
  unfolding handle_messages
  handle_messages-InSync [] r v = v
  handle_messages-InSync ((now, m) ∷ ms) r v =
      handle_messages-InSync ms (handle_hpb_message env now m r)
        (handle_hpb_message-InSync now m r v)

-- The token and the language with which the room was joined.
abbrev pub Serves : String → String → Room → Type 0
Serves token language r = (r.room_token ≡ token) × (r.language_id ≡ language)

module _ (token language : String) where
  remove_speaker-Serves :
      (k : String) (r : Room)
      → Serves token language r
      → Serves token language (remove_speaker k r).0
  unfolding remove_speaker
  remove_speaker-Serves k r v = ground arith

  add_speaker-Serves :
      (env : Environment) (k user_id name : String) (r : Room)
      → Serves token language r
      → Serves token language (add_speaker env k user_id name r).0
  unfolding add_speaker enter_speaker
  add_speaker-Serves env k user_id name r v = ground arith

  -- A room keeps its token and its language.
  pub handle_hpb_message-Serves :
      (env : Environment) (now : ℕ) (m : HpbMessage) (r : Room)
      → Serves token language r
      → Serves token language (handle_hpb_message env now m r)
  handle_hpb_message-Serves env =
      message_keeps env (Serves token language) (λ k r v. v) remove_speaker-Serves
        (add_speaker-Serves env) (λ m r v. v) (λ k c r v. v)
