-- ===== src/Session/Link.antt =====
-- pkg/session/manager.go: `orchestrationLoop`, the loop of a room, with the signaling client that
-- it takes messages and errors from. What the client's loops do meanwhile comes between its rounds;
-- `reconnectHPB` is one round.
pub mod Queue
pub mod Ordered
mod Tests
use nc_kyutai_live_transcrip.Prelude.{Bool, List, String, [], ℕ, ◌++◌, ◌∷◌}
use nc_kyutai_live_transcrip.Hpb.Types.{HpbMessage}
use nc_kyutai_live_transcrip.Hpb.Client.{
  Client, Incoming, handle_message, on_read_error, end_write_loop,
}
use nc_kyutai_live_transcrip.Session.Room.{Room, Environment}
use nc_kyutai_live_transcrip.Session.Room.Handlers.{handle_hpb_message}
use nc_kyutai_live_transcrip.Session.Reconnect.{Attempt, reconnect_hpb}

-- A room with its client; `handled` is the trace of the messages that its loop took, oldest first.
pub record Link : Type 0 where
  pub client : Client
  pub room : Room
  pub handled : List HpbMessage

-- The client reads data, with whether it may give up its send and whether a pong is written, or a
-- read fails, or a write loop looks whether to end; and the rounds of the room's loop: it takes a
-- message, at a time, or an error, after which the attempts to reconnect go as given.
pub data LinkEvent : Type 0 where
  reads : Bool → Bool → List ℕ → LinkEvent
  fails : Bool → String → LinkEvent
  looks : LinkEvent
  takes : ℕ → LinkEvent
  reconnects : List Attempt → LinkEvent

-- The room sees the client's session as it is when it handles the message.
abbrev pub with_session : String → Room → Room
with_session s r = record r { own_session = s }

module _ (env : Environment) (hmac_sha256 : String → String → String)
    (decode : List ℕ → Incoming) where
  abbrev pub took_message : ℕ → List HpbMessage → Link → Link
  took_message now [] l = l
  took_message now (m ∷ rest) l = record {
    client = record (l.client) { msg_chan = rest };
    room = handle_hpb_message env now m (with_session l.client.session_id l.room);
    handled = l.handled ++ m ∷ [];
  }

  abbrev pub took_error : List Attempt → List String → Link → Link
  took_error attempts [] l = l
  took_error attempts (e ∷ rest) l = record l {
    client =
        (reconnect_hpb hmac_sha256 l.room.room_token attempts
          (record (l.client) { err_chan = rest })).client;
  }

  unfoldable pub link_step : LinkEvent → Link → Link
  link_step (reads quit ok bytes) l = record l {
    client = handle_message decode quit ok bytes l.client;
  }
  link_step (fails of_closed e) l = record l { client = on_read_error of_closed e l.client }
  link_step looks l = record l { client = end_write_loop l.client }
  link_step (takes now) l = took_message now l.client.msg_chan l
  link_step (reconnects attempts) l = took_error attempts l.client.err_chan l

  unfoldable pub link_run : List LinkEvent → Link → Link
  unfolding link_step
  link_run [] l = l
  link_run (e ∷ es) l = link_run es (link_step e l)
