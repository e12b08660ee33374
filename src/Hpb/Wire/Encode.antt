-- ===== src/Hpb/Wire/Encode.antt =====
-- pkg/hpb/types.go: the JSON values of what the client writes. A field with `omitempty` is left out
-- where it is empty, and the order of keys does not matter.

use mathlib.Core.Option
use nc_kyutai_live_transcrip.Prelude.{
  Option, String, false, if◌then◌else◌, negsuc, none, pos, some, true, ℤ, ◌+◌,
}
use nc_kyutai_live_transcrip.Json.{
  Double, Value, null, bool, number, int, string, array, object, Values, nil, cons, Fields, field,
  end,
}
use nc_kyutai_live_transcrip.Text.{is_nil}
use nc_kyutai_live_transcrip.Text.Decimal.{decimal}
use nc_kyutai_live_transcrip.Hpb.Types.{
  MessageParty, MessageRecipient, MessageEnvelope, MessageMessage,
}
use nc_kyutai_live_transcrip.Hpb.Client.{
  Auth, internal, by_ticket, by_token, Outgoing, hello_request, room_join, transcript, pong,
  signaling,
}

-- An `int` as a number
abbrev pub whole_number : ℤ → Double
whole_number (pos n) = record { negative = false; whole = n; has_fraction = false }
whole_number (negsuc n) = record { negative = true; whole = n + 1; has_fraction = false }

-- A value of an `interface{}`
unfoldable mutual
  pub on_wire : Value → Value
  on_wire null = null
  on_wire (bool b) = bool b
  on_wire (number d) = number d
  on_wire (int z) = number (whole_number z)
  on_wire (string s) = string s
  on_wire (array vs) = array (items_on_wire vs)
  on_wire (object fs) = object (fields_on_wire fs)

  pub items_on_wire : Values → Values
  items_on_wire nil = nil
  items_on_wire (cons v vs) = cons (on_wire v) (items_on_wire vs)

  pub fields_on_wire : Fields → Fields
  fields_on_wire end = end
  fields_on_wire (field k v fs) = field k (on_wire v) (fields_on_wire fs)

-- A text, a struct behind a pointer and a map with `omitempty`
abbrev pub text_field : String → String → Fields → Fields
text_field k s rest = if is_nil s then rest else field k (string s) rest

abbrev pub optional : String → Option Fields → Fields → Fields
optional k none rest = rest
optional k (some fs) rest = field k (object fs) rest

abbrev pub written_map : Option Fields → Option Fields
written_map none = none
written_map (some end) = none
written_map (some (field k v fs)) = some (field k (on_wire v) (fields_on_wire fs))

abbrev pub party_fields : MessageParty → Fields
party_fields p =
    field "type" (string p.kind)
      (text_field "sessionid" p.session_id (text_field "userid" p.user_id end))

abbrev pub recipient_fields : MessageRecipient → Fields
recipient_fields r =
    field "type" (string r.kind)
      (text_field "sessionid" r.session_id (text_field "userid" r.user_id end))

abbrev pub envelope_fields : MessageEnvelope → Fields
envelope_fields e = optional "sender" (Option.map party_fields e.sender) (
    optional "recipient" (Option.map recipient_fields e.recipient)
      (optional "data" (written_map e.payload) end))

unfoldable pub encode_message : MessageMessage → Value
unfolding on_wire
encode_message m = object (
    field "type" (string "message")
      (text_field "id" m.id (field "message" (object (envelope_fields m.message)) end)))

-- What `sendHello` writes of its authentication
abbrev auth_fields : Auth → Fields
auth_fields (internal random token backend) = field "type" (string "internal") (
    field "params"
      (object (
        field "random" (string random)
          (field "token" (string token) (field "backend" (string backend) end))))
      end)
auth_fields (by_ticket url ticket) =
    field "url" (string url) (field "params" (object (field "ticket" (string ticket) end)) end)
auth_fields (by_token url token) =
    field "url" (string url) (field "params" (object (field "token" (string token) end)) end)

-- What `SendMessage` and `sendHello` encode
unfoldable pub encode : Outgoing → Value
unfolding encode_message decimal
encode (hello_request id auth) = object (
    field "type" (string "hello") (
      field "id" (string (decimal id)) (
        field "hello"
          (object (field "version" (string "2.0") (field "auth" (object (auth_fields auth)) end)))
          end)))
encode (room_join id token) = object (
    field "type" (string "room") (
      field "id" (string (decimal id))
        (field "room" (object (field "roomid" (string token) end)) end)))
encode (transcript id envelope) = encode_message (record { id = decimal id; message = envelope })
encode pong = object (field "type" (string "pong") end)
encode (signaling m) = encode_message m
