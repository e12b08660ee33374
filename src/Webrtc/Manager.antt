-- ===== src/Webrtc/Manager.antt =====
-- pkg/webrtc/manager.go: the table of peer connections. The library's connection objects are not
-- modelled: whether one can be made is an argument, and a peer is what the service keeps of it.
use nc_kyutai_live_transcrip.Prelude.{
  Bool, Dict, List, Option, String, [], delete, false, has, if◌then◌else◌, insert, length, lookup,
  map, true, ℕ, ◌++◌, ◌∷◌,
}

-- `TURNServer` of pkg/webrtc/types.go
pub record TurnServer : Type 0 where
  pub urls : List String
  pub username : String
  pub credential : String

-- `PeerConnection`
pub record Peer : Type 0 where
  pub session_id : String
  pub sample_rate : ℕ
  pub channels : ℕ

pub record Manager : Type 0 where
  pub ice_servers : List TurnServer
  pub peers : Dict Peer

-- `NewManager`: the STUN servers first, each without a credential, and then the TURN servers.
unfoldable pub new_manager : List String → List TurnServer → Manager
new_manager stun turn = record {
  ice_servers =
      map (λ (url : String). record { urls = url ∷ []; username = ""; credential = "" }) stun
      ++ turn;
  peers = [];
}

abbrev pub new_peer : String → Peer
new_peer session_id = record { session_id = session_id; sample_rate = 48000; channels = 1 }

-- `CreatePeer`, given whether the library makes the connection. `false` is an error.
unfoldable pub create_peer : Bool → String → Manager → Manager × Bool
create_peer made session_id m =
    if made
    then (record m { peers = insert session_id (new_peer session_id) m.peers }, true)
    else (m, false)

-- `GetPeer`
unfoldable pub get_peer : String → Manager → Option Peer
get_peer session_id m = lookup session_id m.peers

-- `RemovePeer`, where the peer's `Close` returns: it waits for the goroutine that reads the audio
-- before it closes the connection, and how long a read takes is not modelled.
unfoldable pub remove_peer : String → Manager → Manager × Bool
remove_peer session_id m =
    if has session_id m.peers
    then (record m { peers = delete session_id m.peers }, true)
    else (m, false)

-- `Close`
unfoldable pub close : Manager → Manager
close m = record m { peers = [] }

-- `PeerCount`
unfoldable pub peer_count : Manager → ℕ
peer_count m = length m.peers
