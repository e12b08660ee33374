-- ===== src/Session/Room/Addressed.antt =====
-- Whom a room's signaling reaches: sessions without a speaker are not answered.
use nc_kyutai_live_transcrip.Prelude.{
  String, arith, false, has, has-false, none, some, sym, ◌∙◌, ◌≡◌,
}
use nc_kyutai_live_transcrip.Json.{Fields}
use nc_kyutai_live_transcrip.Hpb.Types.{MessageMessage}
use nc_kyutai_live_transcrip.Webrtc.Manager.{get_peer}
use nc_kyutai_live_transcrip.Session.Room.{Room, Environment}
use nc_kyutai_live_transcrip.Session.Room.Handlers.{
  sender_of, origin, handle_offer, handle_ice_candidate, handle_signaling_data,
  handle_signaling_message,
}
use nc_kyutai_live_transcrip.Session.Room.Synchrony.{InSync}

no_peer :
    (r : Room) (s : String) → InSync r → has s r.speakers ≡ false → get_peer s r.webrtc_mgr ≡ none
unfolding get_peer
no_peer r s v out = has-false s r.webrtc_mgr.peers (sym (v.peers s) ∙ out)

module _ (env : Environment) where
  -- In a room that is in sync, an offer or a candidate from a session that is no speaker, by its
  -- "from" field or else its sender, changes nothing and sends nothing, whatever it says: only
  -- speakers are answered.
  pub signaling_needs_speaker :
      (msg : MessageMessage) (payload : Fields) (r : Room)
      → InSync r
      → msg.message.payload ≡ some payload
      → has (origin payload (sender_of msg.message.sender)) r.speakers ≡ false
      → handle_signaling_message env msg r ≡ r
  unfolding handle_signaling_message handle_signaling_data handle_offer handle_ice_candidate
  signaling_needs_speaker msg payload r v is out =
      let none_there = no_peer r (origin payload (sender_of msg.message.sender)) v out in
      rw (is, handle_signaling_message) (ground (arith, none_there))
