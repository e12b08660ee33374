-- ===== src/Session/Manager/Rooms.antt =====
-- What holds of every joined room.
use nc_kyutai_live_transcrip.Prelude.{List, String, arith, lookup, refl, some, ◌≡◌, ◌⊎◌}
use nc_kyutai_live_transcrip.Modal.Client.{Config}
use nc_kyutai_live_transcrip.Webrtc.Manager.{TurnServer, new_manager}
use nc_kyutai_live_transcrip.Session.Room.{Room, Environment}
use nc_kyutai_live_transcrip.Session.Room.Synchrony.{InSync}
use nc_kyutai_live_transcrip.Session.Room.Messages.{
  handle_hpb_message-InSync, handle_hpb_message-Serves,
}
use nc_kyutai_live_transcrip.Session.Manager.{
  Manager, new_room, RoomInput, has_session, delivered, room_step,
}

-- The predicate holds of every joined room, with its token.
abbrev pub AllRooms : (String → Room → Type 0) → Manager → Type 0
AllRooms P m = (t : String) (r : Room) → lookup t m.rooms ≡ some r → P t r

-- What the service keeps of each of its rooms: it is in sync, it is the room of its token, and it
-- is transcribed in a supported language.
pub record IsServed (token : String) (r : Room) : Type 0 where
  pub sync : InSync r
  pub named : r.room_token ≡ token
  pub language : (r.language_id ≡ "en") ⊎ (r.language_id ≡ "fr")

new_room-InSync :
    (token language : String) (turn : List TurnServer) (modal : Config)
    → InSync (new_room token language turn modal)
unfolding new_manager lookup
new_room-InSync token language turn modal = record {
  clients = λ k. refl;
  peers = λ k. refl;
  capacity = omega arith;
  balance = λ s. refl;
}

pub new_room-IsServed :
    (token language : String) (turn : List TurnServer) (modal : Config)
    → (language ≡ "en") ⊎ (language ≡ "fr")
    → IsServed token (new_room token language turn modal)
new_room-IsServed token language turn modal h = record {
  sync = new_room-InSync token language turn modal;
  named = refl;
  language = h;
}

pub room_step-IsServed :
    (env : Environment) (input : RoomInput) (token : String) (r : Room)
    → IsServed token r
    → IsServed token (room_step env input r)
unfolding room_step
room_step-IsServed env (has_session s) token r v = record {
  sync = record {
    clients = v.sync.clients;
    peers = v.sync.peers;
    capacity = v.sync.capacity;
    balance = v.sync.balance;
  };
  named = v.named;
  language = v.language;
}
room_step-IsServed env (delivered now msg) token r v =
    let (named, same) =
      handle_hpb_message-Serves token r.language_id env now msg r (v.named, refl) in
    record {
      sync = handle_hpb_message-InSync env now msg r v.sync;
      named = named;
      language = rw same v.language;
    }
