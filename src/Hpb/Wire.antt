-- ===== src/Hpb/Wire.antt =====
-- pkg/hpb/types.go and `handleMessage` of client.go: how JSON values are decoded into the messages.
-- A text is given as its value, in which an object has each key once, also without regard to case,
-- and keys are ASCII. encoding/json finds a struct's field without regard to case, leaves it as it
-- is for a null, and fails where a value has another type; the other fields of an object are
-- ignored.
pub mod Encode
pub mod RoundTrip
use Prim.Native.Char.{code}
use Prim.Native.String
use nc_kyutai_live_transcrip.Prelude.{
  Bool, List, Option, String, [], false, if◌then◌else◌, leb, none, some, str_eq, true, ℕ, ◌&&◌, ◌+◌,
  ◌==◌, ◌∷◌, ◌>>=◌,
}
use nc_kyutai_live_transcrip.Json.{
  Value, null, bool, number, int, string, array, object, Values, nil, cons, Fields, field, end,
}
use nc_kyutai_live_transcrip.Hpb.Types.{
  HpbMessage, hello, room, event, message, bye, HelloResponse, RoomMessage, MessageParty,
  MessageRecipient, MessageEnvelope, MessageMessage, ByeMessage, EventSessionEntry, RoomEventUpdate,
  EventMessage,
}
use nc_kyutai_live_transcrip.Hpb.Client.{
  Incoming, for_room, ping, welcome, reported_error, other, malformed,
}

abbrev pub lower : ℕ → ℕ
lower c = if leb 65 c && leb c 90 then c + 32 else c

-- The two keys are equal but for the case of ASCII letters.
unfoldable pub same_key : String → String → Bool
same_key String.[] String.[] = true
same_key String.[] (String.◌∷◌ d t) = false
same_key (String.◌∷◌ c s) String.[] = false
same_key (String.◌∷◌ c s) (String.◌∷◌ d t) = (lower (code c) == lower (code d)) && same_key s t

-- A null is as if the value were missing.
abbrev pub element : Value → Option Value
element null = none
element v = some v

-- What an object has for a struct's field
unfoldable pub at : String → Fields → Option Value
unfolding same_key
at k end = none
at k (field j v rest) = if same_key j k then element v else at k rest

-- A field of each type. `none` is a value of another type.
abbrev pub as_text : Option Value → Option String
as_text none = some ""
as_text (some (string s)) = some s
as_text _ = none

abbrev pub as_flag : Option Value → Option Bool
as_flag none = some false
as_flag (some (bool b)) = some b
as_flag _ = none

-- An `int`, of which only the type matters here
abbrev pub as_whole : Option Value → Option (Unit {0})
as_whole none = some tt
as_whole (some (number d)) = if d.has_fraction then none else some tt
as_whole _ = none

-- A map, nil where it is missing
abbrev pub as_map : Option Value → Option (Option Fields)
as_map none = some none
as_map (some (object fs)) = some (some fs)
as_map _ = none

-- A struct, the zero value where it is missing
abbrev pub as_struct : Option Value → Option Fields
as_struct none = some end
as_struct (some (object fs)) = some fs
as_struct _ = none

-- A slice, nil where it is missing
abbrev pub as_array : Option Value → Option Values
as_array none = some nil
as_array (some (array vs)) = some vs
as_array _ = none

unfoldable pub texts : Values → Option (List String)
texts nil = some []
texts (cons v vs) = do s ← as_text (element v); rest ← texts vs; some (s ∷ rest)

-- Maps in a slice; a null is a nil map, in which nothing is found.
unfoldable pub maps : Values → Option (List Fields)
maps nil = some []
maps (cons v vs) = do fs ← as_struct (element v); rest ← maps vs; some (fs ∷ rest)

abbrev session_entry : Fields → Option EventSessionEntry
session_entry fs = do
  session ← as_text (at "sessionid" fs)
  user ← as_text (at "userid" fs)
  _ ← as_text (at "roomsessionid" fs)
  _ ← as_map (at "user" fs)
  features ← as_array (at "features" fs)
  _ ← texts features
  some (record { session_id = session; user_id = user })

unfoldable pub session_entries : Values → Option (List EventSessionEntry)
unfolding at texts
session_entries nil = some []
session_entries (cons v vs) = do
  fs ← as_struct (element v)
  entry ← session_entry fs
  rest ← session_entries vs
  some (entry ∷ rest)

-- `EventInner`, whose update is a pointer
abbrev event_update : Option Value → Option (Option RoomEventUpdate)
event_update none = some none
event_update (some (object fs)) = do
  _ ← as_text (at "roomid" fs)
  all ← as_flag (at "all" fs)
  changed ← as_array (at "changed" fs)
  changed' ← maps changed
  users ← as_array (at "users" fs)
  users' ← maps users
  some (some (record { in_call = at "incall" fs; all = all; changed = changed'; users = users' }))
event_update _ = none

abbrev event_inner : Fields → Option EventMessage
event_inner fs = do
  target ← as_text (at "target" fs)
  _ ← as_text (at "type" fs)
  join ← as_array (at "join" fs)
  joins ← session_entries join
  leave ← as_array (at "leave" fs)
  leaves ← texts leave
  change ← as_array (at "change" fs)
  _ ← session_entries change
  update ← event_update (at "update" fs)
  some (record { target = target; joins = joins; leaves = leaves; update = update })

-- `MessageParty` and `MessageRecipient`, behind pointers
abbrev pub party : Option Value → Option (Option MessageParty)
party none = some none
party (some (object fs)) = do
  kind ← as_text (at "type" fs)
  session ← as_text (at "sessionid" fs)
  user ← as_text (at "userid" fs)
  some (some (record { kind = kind; session_id = session; user_id = user }))
party _ = none

abbrev pub recipient : Option Value → Option (Option MessageRecipient)
recipient none = some none
recipient (some (object fs)) = do
  kind ← as_text (at "type" fs)
  session ← as_text (at "sessionid" fs)
  user ← as_text (at "userid" fs)
  some (some (record { kind = kind; session_id = session; user_id = user }))
recipient _ = none

-- The message of each type
unfoldable pub decode_hello : Fields → Option HelloResponse
unfolding at
decode_hello fs = do
  inner ← as_struct (at "hello" fs)
  session ← as_text (at "sessionid" inner)
  resume ← as_text (at "resumeid" inner)
  _ ← as_map (at "server" inner)
  some (record { session_id = session; resume_id = resume })

-- The pointers to a room's properties and bandwidth
abbrev properties : Fields → Option (Unit {0})
properties fs = do _ ← as_text (at "name" fs); some tt

abbrev bandwidth : Fields → Option (Unit {0})
bandwidth fs = do _ ← as_whole (at "maxstreambitrate" fs); as_whole (at "maxscreenbitrate" fs)

unfoldable pub decode_room : Fields → Option RoomMessage
unfolding at
decode_room fs = do
  _ ← as_text (at "id" fs)
  inner ← as_struct (at "room" fs)
  id ← as_text (at "roomid" inner)
  shown ← as_struct (at "properties" inner)
  _ ← properties shown
  limits ← as_struct (at "bandwidth" inner)
  _ ← bandwidth limits
  _ ← as_text (at "token" fs)
  some (record { room_id = id })

unfoldable pub decode_event : Fields → Option EventMessage
unfolding at texts maps session_entries
decode_event fs = do inner ← as_struct (at "event" fs); event_inner inner

unfoldable pub decode_message : Fields → Option MessageMessage
unfolding at
decode_message fs = do
  id ← as_text (at "id" fs)
  inner ← as_struct (at "message" fs)
  sender ← party (at "sender" inner)
  to ← recipient (at "recipient" inner)
  payload ← as_map (at "data" inner)
  some (record { id = id; message = record { sender = sender; recipient = to; payload = payload } })

unfoldable pub decode_bye : Fields → Option ByeMessage
unfolding at
decode_bye fs = do
  session ← as_text (at "sessionid" fs)
  _ ← as_text (at "room" fs)
  reason ← as_text (at "reason" fs)
  some (record { session_id = session; reason = reason })

-- `ErrorMessage`, which is only logged
unfoldable pub decode_error : Fields → Option (Unit {0})
unfolding at
decode_error fs = do
  inner ← as_struct (at "error" fs)
  _ ← as_text (at "code" inner)
  _ ← as_text (at "message" inner)
  _ ← as_text (at "details" inner)
  _ ← as_whole (at "code" fs)
  _ ← as_text (at "message" fs)
  some tt

abbrev passes {ℓ} : {A : Type ℓ} → (A → Incoming) → Option A → Incoming
passes f none = malformed
passes f (some a) = f a

-- The `switch` of `handleMessage`
unfoldable pub of_type : String → Fields → Incoming
of_type kind fs =
    if str_eq kind "hello"
    then passes (λ m. for_room (hello m)) (decode_hello fs)
    else if str_eq kind "welcome"
    then welcome
    else if str_eq kind "room"
    then passes (λ m. for_room (room m)) (decode_room fs)
    else if str_eq kind "event"
    then passes (λ m. for_room (event m)) (decode_event fs)
    else if str_eq kind "message"
    then passes (λ m. for_room (message m)) (decode_message fs)
    else if str_eq kind "bye"
    then passes (λ m. for_room (bye m)) (decode_bye fs)
    else if str_eq kind "error"
    then passes (λ _. reported_error) (decode_error fs)
    else if str_eq kind "ping"
    then ping
    else other

-- `Message`: the type and the id
abbrev base_type : Fields → Option String
base_type fs = do kind ← as_text (at "type" fs); _ ← as_text (at "id" fs); some kind

-- The decoding of `handleMessage`, of a value
unfoldable pub decode_value : Value → Incoming
unfolding of_type at
decode_value (object fs) = passes (λ kind. of_type kind fs) (base_type fs)
decode_value null = other
decode_value _ = malformed

-- The decoding of `handleMessage`, of data, with the parser of encoding/json
unfoldable pub decode_data : (List ℕ → Option Value) → List ℕ → Incoming
unfolding decode_value
decode_data parse bytes = passes decode_value (parse bytes)
