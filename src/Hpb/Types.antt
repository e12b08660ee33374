-- ===== src/Hpb/Types.antt =====
-- pkg/hpb/types.go: the messages that the service reads and writes, with the fields that it uses.
-- A pointer that may be nil is an `Option`; a JSON object that is kept as a map is a `Fields`.
use nc_kyutai_live_transcrip.Prelude.{Bool, List, Option, String}
use nc_kyutai_live_transcrip.Json.{Value, Fields}

pub record HelloResponse : Type 0 where
  pub session_id : String
  pub resume_id : String

-- `RoomMessage`, by its `RoomInner`
pub record RoomMessage : Type 0 where
  pub room_id : String

pub record MessageParty : Type 0 where
  pub kind : String
  pub session_id : String
  pub user_id : String

pub record MessageRecipient : Type 0 where
  pub kind : String
  pub session_id : String
  pub user_id : String

-- `MessageEnvelope`; a nil map is `none`
pub record MessageEnvelope : Type 0 where
  pub sender : Option MessageParty
  pub recipient : Option MessageRecipient
  pub payload : Option Fields

pub record MessageMessage : Type 0 where
  pub id : String
  pub message : MessageEnvelope

pub record ByeMessage : Type 0 where
  pub session_id : String
  pub reason : String

pub record EventSessionEntry : Type 0 where
  pub session_id : String
  pub user_id : String

pub record RoomEventUpdate : Type 0 where
  pub in_call : Option Value
  pub all : Bool
  pub changed : List Fields
  pub users : List Fields

-- `EventInner`
pub record EventMessage : Type 0 where
  pub target : String
  pub joins : List EventSessionEntry
  pub leaves : List String
  pub update : Option RoomEventUpdate

-- What the message channel carries.
pub data HpbMessage : Type 0 where
  hello : HelloResponse → HpbMessage
  room : RoomMessage → HpbMessage
  event : EventMessage → HpbMessage
  message : MessageMessage → HpbMessage
  bye : ByeMessage → HpbMessage
