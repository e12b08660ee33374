-- ===== src/Session/Broadcast.antt =====
-- pkg/session/manager.go: the callback by which a speaker's transcriber broadcasts a caption, and
-- the configuration of the room's signaling client.
pub mod Heard
mod Tests
use Prim.Native.String
use nc_kyutai_live_transcrip.Prelude.{List, String, [], ℕ, ◌+◌, ◌∷◌}
use nc_kyutai_live_transcrip.Hpb.Client.{Config, with_backend}
use nc_kyutai_live_transcrip.Hpb.Broadcast.{Backend, Sending, send_transcript_via_backend}
use nc_kyutai_live_transcrip.Session.Manager.{ManagerConfig}
use nc_kyutai_live_transcrip.Session.Transcriber.{Caption}

-- What `JoinRoom` gives to `NewClient`
abbrev pub room_client_config : ManagerConfig → Config
room_client_config cfg = record {
  hpb_url = cfg.hpb_url;
  backend_url = cfg.hpb_backend_url;
  secret = cfg.hpb_secret;
  signaling_secret = cfg.hpb_signaling_secret;
  ticket_url = "";
  ticket = "";
  token = "";
}

-- The room, its language and the session of the speaker: what the callback captures
pub record Source : Type 0 where
  pub room_token : String
  pub lang_id : String
  pub session_id : String

module _ {D : Type 0} (b : Backend D) (cfg : ManagerConfig) (nonce : ℕ → String) (s : Source) where
  -- The callback. That a caption is not posted is only logged. The last argument tells which of the
  -- nonces is drawn.
  unfoldable pub broadcast : Caption → ℕ → Sending D
  unfolding send_transcript_via_backend
  broadcast c n =
      send_transcript_via_backend b (nonce n) s.room_token c.text s.lang_id s.session_id c.final
        (with_backend (room_client_config cfg))

  -- The captions of a transcriber, in turn
  unfoldable pub broadcast_all : List Caption → ℕ → List (Sending D)
  unfolding broadcast
  broadcast_all [] n = []
  broadcast_all (c ∷ cs) n = broadcast c n ∷ broadcast_all cs (n + 1)
