-- ===== src/Session/Manager.antt =====
-- pkg/session/manager.go: `Manager`, the rooms that are being transcribed. The locks make each
-- method, and each message that a room handles, one step.
pub mod Leaving
pub mod Rooms
pub mod Entries
pub mod Stranded
use Prim.Native.String
use nc_kyutai_live_transcrip.Prelude.{
  Dict, List, Option, String, [], delete, false, has, if◌then◌else◌, insert, is_positive, keys,
  length, lookup, none, pos, some, true, ℕ, ℤ, ◌++◌, ◌+◌, ◌∷◌,
}
use nc_kyutai_live_transcrip.Modal.Client.{Config}
use nc_kyutai_live_transcrip.Hpb.Types.{HpbMessage}
use nc_kyutai_live_transcrip.Webrtc.Manager as Webrtc
use nc_kyutai_live_transcrip.Webrtc.Manager.{TurnServer, new_manager}
use nc_kyutai_live_transcrip.Session.Room.{Room, Speaker, Environment, with_webrtc}
use nc_kyutai_live_transcrip.Session.Room.Handlers.{remove_all, handle_hpb_message}

-- `ManagerConfig`, without the logger
pub record ManagerConfig : Type 0 where
  pub hpb_url : String
  pub hpb_secret : String
  pub hpb_signaling_secret : String
  pub hpb_backend_url : String
  pub modal : Config
  pub max_speakers : ℤ

-- `Manager`
pub record Manager : Type 0 where
  pub rooms : Dict Room
  pub config : ManagerConfig

-- `NewManager`
unfoldable pub new_manager_of : ManagerConfig → Manager
new_manager_of cfg = record {
  rooms = [];
  config = record cfg {
    max_speakers = if is_positive cfg.max_speakers then cfg.max_speakers else pos 500;
  };
}

abbrev pub stun_servers : List String
stun_servers = "stun:stun.l.google.com:19302" ∷ "stun:stun1.l.google.com:19302" ∷ []

-- How the signaling client's `Connect` and `JoinRoom` go: `none`, or the text of the error.
pub record Signaling : Type 0 where
  pub connect_error : Option String
  pub join_error : Option String

-- The room that `JoinRoom` makes; the signaling client has no session yet.
abbrev pub new_room : String → String → List TurnServer → Config → Room
new_room token language turn modal = record {
  room_token = token;
  language_id = language;
  own_session = "";
  hpb_closed = false;
  webrtc_mgr = new_manager stun_servers turn;
  speakers = [];
  modal_clients = [];
  modal_config = modal;
  internal_sessions = [];
  trace = [];
}

-- `JoinRoom`, with the text of its error.
unfoldable pub join_room :
    Signaling → String → String → List TurnServer → Manager → Manager × Option String
join_room sig token language turn m =
    if has token m.rooms then (m, none) else elim sig.connect_error [
      | some e ↦ (m, some (String.◌++◌ "failed to connect to HPB: " e))
      | none ↦ elim sig.join_error [
        | some e ↦ (m, some (String.◌++◌ "failed to join room: " e))
        | none ↦ (
          record m { rooms = insert token (new_room token language turn m.config.modal) m.rooms },
          none,
        )
      ]
    ]

-- The end of `LeaveRoom`: the peer connections and the signaling client are closed.
abbrev pub closed_down : Room → Room
closed_down r = record (with_webrtc (Webrtc.close r.webrtc_mgr) r) { hpb_closed = true }

-- `LeaveRoom`. Go ranges over the map of speakers in an order of its own, which is an argument.
-- The result has the room as it is left behind; `none` is the error "room not found".
unfoldable pub leave_room : (List String → List String) → String → Manager → Manager × Option Room
leave_room order token m = elim (lookup token m.rooms) [
  | none ↦ (m, none)
  | some r ↦
      let emptied = remove_all (order (keys r.speakers)) r in
      (record m { rooms = delete token m.rooms }, some (closed_down emptied))
]

-- `RoomCount`
unfoldable pub room_count : Manager → ℕ
room_count m = length m.rooms

-- `SpeakerCount`
unfoldable pub speakers_of : Dict Room → ℕ
speakers_of [] = 0
speakers_of ((token, r) ∷ rooms) = length r.speakers + speakers_of rooms

unfoldable pub speaker_count : Manager → ℕ
unfolding speakers_of
speaker_count m = speakers_of m.rooms

-- The loop of `Close`
unfoldable pub leave_all : (List String → List String) → List String → Manager → Manager
leave_all order [] m = m
leave_all order (token ∷ tokens) m = leave_all order tokens (leave_room order token m).0

-- `Close`; it ranges over the map of rooms in an order of its own as well.
unfoldable pub close : (List String → List String) → Manager → Manager
unfolding leave_all
close order m = leave_all order (order (keys m.rooms)) m

-- What happens to a room while it is joined: its signaling client learns its session from a hello
-- response, or the room's loop handles a message.
pub data RoomInput : Type 0 where
  has_session : String → RoomInput
  delivered : ℕ → HpbMessage → RoomInput

module _ (env : Environment) where
  unfoldable pub room_step : RoomInput → Room → Room
  room_step (has_session s) r = record r { own_session = s }
  room_step (delivered now m) r = handle_hpb_message env now m r

  -- An input for the room with the given token, if there is one.
  unfoldable pub room_input : String → RoomInput → Manager → Manager
  room_input token input m = elim (lookup token m.rooms) [
    | none ↦ m
    | some r ↦ record m { rooms = insert token (room_step input r) m.rooms }
  ]
