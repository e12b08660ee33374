-- ===== src/Hpb/WireTests.antt =====
-- Messages of the signaling server as JSON values, and a message on its way between two clients.

use nc_kyutai_live_transcrip.Prelude.{
  List, Option, [], false, none, offer, pos, refl, some, true, ℕ, ◌∷◌, ◌≡◌,
}
use nc_kyutai_live_transcrip.Json.{
  Value, null, number, int, string, array, object, nil, cons, Fields, field, end,
}
use nc_kyutai_live_transcrip.Hpb.Types.{hello, event, message, MessageMessage}
use nc_kyutai_live_transcrip.Hpb.Client.{
  Config, new_client, for_room, malformed, other, signaling, hello_request, by_ticket, msg_cap,
  handle_message,
}
use nc_kyutai_live_transcrip.Hpb.Wire.{decode_hello, decode_event, decode_value, decode_data}
use nc_kyutai_live_transcrip.Hpb.Wire.Encode.{encode}
use nc_kyutai_live_transcrip.Hpb.Wire.RoundTrip.{received, handle_message-encode}

abbrev whole : ℕ → Value
whole n = number (record { negative = false; whole = n; has_fraction = false })

-- {"type":"hello","hello":{"sessionid":"b1","resumeid":"r1","server":{"version":"1"}}}
hello_run :
    decode_value (
      object (
        field "type" (string "hello") (
          field "hello"
            (object (
              field "SessionID" (string "b1") (
                field "resumeid"
                  (string "r1")
                  (field "server" (object (field "version" (string "1") end)) end))))
            end)))
    ≡ for_room (hello (record { session_id = "b1"; resume_id = "r1" }))
unfolding decode_value decode_hello
hello_run = refl

abbrev alice : Fields
alice = field "sessionId" (string "s1") (field "inCall" (whole 3) end)

-- An update of the participants
event_run :
    decode_value (
      object (
        field "type" (string "event") (
          field "event"
            (object (
              field "target" (string "participants") (
                field "type" (string "update") (
                  field "update"
                    (object (
                      field "roomid"
                        (string "t1")
                        (field "users" (array (cons (object alice) nil)) end)))
                    end))))
            end)))
    ≡ for_room (
        event (record {
          target = "participants";
          joins = [];
          leaves = [];
          update = some (record { in_call = none; all = false; changed = []; users = alice ∷ [] });
        }))
unfolding decode_value decode_event
event_run = refl

-- A field of another type
mistyped_run :
    decode_value (
      object (
        field "type"
          (string "hello")
          (field "hello" (object (field "sessionid" (whole 7) end)) end)))
    ≡ malformed
unfolding decode_value decode_hello
mistyped_run = refl

null_run : decode_value null ≡ other
unfolding decode_value
null_run = refl

-- The hello with a ticket
ticket_run :
    encode (hello_request 12 (by_ticket "https://cloud/hello" "ticket"))
    ≡ object (
        field "type" (string "hello") (
          field "id" (string "12") (
            field "hello"
              (object (
                field "version" (string "2.0") (
                  field "auth"
                    (object (
                      field "url"
                        (string "https://cloud/hello")
                        (field "params" (object (field "ticket" (string "ticket") end)) end)))
                    end)))
              end)))
unfolding encode
ticket_run = refl

abbrev offer_request : MessageMessage
offer_request = record {
  id = "";
  message = record {
    sender = none;
    recipient = some (record { kind = "session"; session_id = "s1"; user_id = "" });
    payload = some (field "type" (string "requestoffer") (field "sid" (int (pos 3)) end));
  };
}

abbrev account : Config
account = record {
  hpb_url = "wss://hpb";
  backend_url = "https://cloud/";
  secret = "secret";
  signaling_secret = "signaling";
  ticket_url = "";
  ticket = "";
  token = "";
}

-- A parser of one text
abbrev parser : List ℕ → Option Value
parser bytes = some (encode (signaling offer_request))

handle_message-encode_example :
    handle_message (decode_data parser) false true (123 ∷ 125 ∷ []) (new_client account)
    ≡ record (new_client account) {
      msg_chan = offer msg_cap (new_client account).msg_chan (message (received offer_request));
    }
handle_message-encode_example =
    handle_message-encode parser true offer_request (125 ∷ []) (new_client account) refl
