-- ===== src/Hpb/Wire/RoundTrip.antt =====
-- What the client of pkg/hpb writes is decoded as what it meant, by the same types.

use mathlib.Core.Option
use nc_kyutai_live_transcrip.Prelude.{
  Bool, List, Option, String, ap, false, none, offer, refl, some, ℕ, ◌∙◌, ◌∷◌, ◌≡◌,
}
use nc_kyutai_live_transcrip.Json.{Value, string, object, Fields, field, end}
use nc_kyutai_live_transcrip.Hpb.Types.{
  message, MessageParty, MessageRecipient, MessageEnvelope, MessageMessage,
}
use nc_kyutai_live_transcrip.Hpb.Client.{
  for_room, Client, signaling, msg_cap, route, strip_signature, handle_message,
}
use nc_kyutai_live_transcrip.Hpb.Wire.{
  at, as_text, as_map, party, recipient, decode_message, of_type, decode_value, decode_data,
}
use nc_kyutai_live_transcrip.Hpb.Wire.Encode.{
  text_field, optional, written_map, party_fields, recipient_fields, envelope_fields,
  encode_message, encode,
}

-- A party, whichever of its ids are left out
party_lem :
    (kind s u : String)
    → let p : MessageParty = record { kind = kind; session_id = s; user_id = u } in
      party (some (object (party_fields p))) ≡ some (some p)
unfolding at
party_lem kind String.[] String.[] = refl
party_lem kind String.[] (String.◌∷◌ c u) = refl
party_lem kind (String.◌∷◌ c s) String.[] = refl
party_lem kind (String.◌∷◌ c s) (String.◌∷◌ d u) = refl

recipient_lem :
    (kind s u : String)
    → let r : MessageRecipient = record { kind = kind; session_id = s; user_id = u } in
      recipient (some (object (recipient_fields r))) ≡ some (some r)
unfolding at
recipient_lem kind String.[] String.[] = refl
recipient_lem kind String.[] (String.◌∷◌ c u) = refl
recipient_lem kind (String.◌∷◌ c s) String.[] = refl
recipient_lem kind (String.◌∷◌ c s) (String.◌∷◌ d u) = refl

abbrev object_of : Option Fields → Option Value
object_of none = none
object_of (some fs) = some (object fs)

-- Each struct of the envelope is found, whichever others are left out.
envelope_parts :
    (a b c : Option Fields)
    → let fs = optional "sender" a (optional "recipient" b (optional "data" c end)) in
      (at "sender" fs ≡ object_of a)
      × (at "recipient" fs ≡ object_of b)
      × (at "data" fs ≡ object_of c)
unfolding at
envelope_parts none none none = (refl, refl, refl)
envelope_parts none none (some c) = (refl, refl, refl)
envelope_parts none (some b) none = (refl, refl, refl)
envelope_parts none (some b) (some c) = (refl, refl, refl)
envelope_parts (some a) none none = (refl, refl, refl)
envelope_parts (some a) none (some c) = (refl, refl, refl)
envelope_parts (some a) (some b) none = (refl, refl, refl)
envelope_parts (some a) (some b) (some c) = (refl, refl, refl)

sender_back : (p : Option MessageParty) → party (object_of (Option.map party_fields p)) ≡ some p
sender_back none = refl
sender_back (some p) = party_lem p.kind p.session_id p.user_id

recipient_back :
    (r : Option MessageRecipient) → recipient (object_of (Option.map recipient_fields r)) ≡ some r
recipient_back none = refl
recipient_back (some r) = recipient_lem r.kind r.session_id r.user_id

payload_back : (m : Option Fields) → as_map (object_of m) ≡ some m
payload_back none = refl
payload_back (some fs) = refl

-- A message as the other side has it: its data as JSON values, and nil if it was empty.
abbrev pub received : MessageMessage → MessageMessage
received m = record m { message = record (m.message) { payload = written_map m.message.payload } }

message_parts :
    (id : String) (inner : Fields)
    → let fs =
        field "type" (string "message") (text_field "id" id (field "message" (object inner) end)) in
      (at "type" fs ≡ some (string "message"))
      × (as_text (at "id" fs) ≡ some id)
      × (at "message" fs ≡ some (object inner))
unfolding at
message_parts String.[] inner = (refl, refl, refl)
message_parts (String.◌∷◌ c id) inner = (refl, refl, refl)

decode_message-parts :
    (fs inner : Fields) (id : String) (e : MessageEnvelope)
    → as_text (at "id" fs) ≡ some id
    → at "message" fs ≡ some (object inner)
    → party (at "sender" inner) ≡ some e.sender
    → recipient (at "recipient" inner) ≡ some e.recipient
    → as_map (at "data" inner) ≡ some e.payload
    → decode_message fs ≡ some (record { id = id; message = e })
unfolding decode_message
decode_message-parts fs inner id e known found sender to payload =
    rw (known, decode_message)
      (rw (found, decode_message)
        (rw (sender, decode_message) (rw (to, decode_message) (rw (payload, decode_message) refl))))

decode_value-message :
    (fs : Fields) (id : String) (m : MessageMessage)
    → at "type" fs ≡ some (string "message")
    → as_text (at "id" fs) ≡ some id
    → decode_message fs ≡ some m
    → decode_value (object fs) ≡ for_room (message m)
unfolding decode_value of_type
decode_value-message fs id m kind known decoded =
    rw (kind, decode_value) (rw (known, decode_value) (rw (decoded, of_type) refl))

-- What is written for a message is decoded to that message, with whatever sender, recipient, id and
-- data: the data's whole numbers come back as floating point, and data without a field as none.
pub decode-encode :
    (m : MessageMessage) → decode_value (encode_message m) ≡ for_room (message (received m))
unfolding encode_message
decode-encode m =
    let e = m.message in
    let (kind, id, inner) = message_parts m.id (envelope_fields e) in
    let (sender, to, payload) =
      envelope_parts (Option.map party_fields e.sender) (Option.map recipient_fields e.recipient)
        (written_map e.payload) in
    decode_value-message _ m.id (received m) kind id (
      decode_message-parts _ (envelope_fields e) m.id (received m).message id inner
        (ap party sender ∙ sender_back e.sender) (ap recipient to ∙ recipient_back e.recipient)
        (ap as_map payload ∙ payload_back (written_map e.payload)))

-- A message between two clients: what `SendMessage` encodes for a message, read from the WebSocket
-- as data that starts with a brace and that the parser gives back, while the client is not
-- cancelled: the message itself is queued for the room, unless the queue is full, and nothing else
-- changes. Its data has floating point for whole numbers, and is none if it was empty.
pub handle_message-encode :
    (parse : List ℕ → Option Value) (ok : Bool) (m : MessageMessage) (bytes : List ℕ) (c : Client)
    → parse (123 ∷ bytes) ≡ some (encode (signaling m))
    → handle_message (decode_data parse) false ok (123 ∷ bytes) c
      ≡ record c { msg_chan = offer msg_cap c.msg_chan (message (received m)) }
unfolding handle_message strip_signature encode decode_data route
handle_message-encode parse ok m bytes c parsed =
    let decoded : decode_data parse (123 ∷ bytes) ≡ for_room (message (received m)) =
      rw (parsed, decode_data) (decode-encode m) in
    ap (λ x. route false ok x c) decoded
