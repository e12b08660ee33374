-- ===== src/Hpb/Client.antt =====
-- pkg/hpb/client.go. The WebSocket is a parameter: how a dial or a write goes, and what a read
-- gives, are arguments, as are the MAC of crypto/hmac and the decoder of encoding/json. Data is the
-- list of its bytes; a channel is the list of what it holds, oldest first.
use Prim.Native.String
use nc_kyutai_live_transcrip.Prelude.{
  Bool, List, Option, String, [], false, if◌then◌else◌, none, not, offer, some, true, ℕ, ◌&&◌, ◌++◌,
  ◌+◌, ◌-◌, ◌==◌, ◌||◌, ◌∷◌,
}
use nc_kyutai_live_transcrip.Modal.Client.{is_empty}
use nc_kyutai_live_transcrip.Hpb.Types.{
  HpbMessage, hello, room, event, message, bye, HelloResponse, MessageMessage, MessageEnvelope,
}
use nc_kyutai_live_transcrip.Json.{Value, Fields, field, end}
use nc_kyutai_live_transcrip.Hpb.Urls.{derived_backend_url}

-- `Config`, which the client keeps
pub record Config : Type 0 where
  pub hpb_url : String
  pub backend_url : String
  pub secret : String
  pub signaling_secret : String
  pub ticket_url : String
  pub ticket : String
  pub token : String

-- The three forms of authentication that a hello can have
pub data Auth : Type 0 where
  internal : String → String → String → Auth
  by_ticket : String → String → Auth
  by_token : String → String → Auth

-- What the client writes: a hello, a request to join a room, a transcript for one session, a pong,
-- or a message of a room's handlers. The first three have an id of the client.
pub data Outgoing : Type 0 where
  hello_request : ℕ → Auth → Outgoing
  room_join : ℕ → String → Outgoing
  transcript : ℕ → MessageEnvelope → Outgoing
  pong : Outgoing
  signaling : MessageMessage → Outgoing

-- What data decodes to: a message for the room, one that the client handles itself, or an error.
pub data Incoming : Type 0 where
  for_room : HpbMessage → Incoming
  ping welcome reported_error other malformed : Incoming

-- `Client`, with `has_conn` for `conn != nil`, `closed` for the closed `closeChan` and `cancelled`
-- for its context. `reading` and `writing` count the goroutines that run, and `written` is the
-- trace of what was written, oldest first.
pub record Client : Type 0 where
  pub config : Config
  pub has_conn : Bool
  pub resume_id : String
  pub session_id : String
  pub msg_id : ℕ
  pub msg_chan : List HpbMessage
  pub err_chan : List String
  pub closed : Bool
  pub cancelled : Bool
  pub reading : ℕ
  pub writing : ℕ
  pub written : List Outgoing

abbrev pub msg_cap : ℕ
msg_cap = 100

abbrev pub err_cap : ℕ
err_cap = 10

-- The configuration, with the backend URL that is derived where none is given
abbrev pub with_backend : Config → Config
with_backend cfg = record cfg {
  backend_url =
      if is_empty cfg.backend_url then derived_backend_url cfg.hpb_url else cfg.backend_url;
}

-- `NewClient`
unfoldable pub new_client : Config → Client
new_client cfg = record {
  config = with_backend cfg;
  has_conn = false;
  resume_id = "";
  session_id = "";
  msg_id = 0;
  msg_chan = [];
  err_chan = [];
  closed = false;
  cancelled = false;
  reading = 0;
  writing = 0;
  written = [];
}

-- `nextMsgID`; the id is the counter's new value.
abbrev pub next_msg_id : Client → Client
next_msg_id c = record c { msg_id = c.msg_id + 1 }

-- A write on the connection, given whether it succeeds.
abbrev pub write : Bool → Outgoing → Client → Client × Bool
write ok m c = if ok then (record c { written = c.written ++ m ∷ [] }, true) else (c, false)

-- `SendMessage`; `false` is an error.
unfoldable pub send_message : Bool → Outgoing → Client → Client × Bool
send_message ok m c = if c.has_conn then write ok m c else (c, false)

-- `JoinRoom`, up to its call of `SendMessage`: the request, with an id that is drawn outside of the
-- mutex that `SendMessage` takes.
abbrev pub drawn_join : String → Client → Client × Outgoing
drawn_join room_token c = let c' = next_msg_id c in (c', room_join c'.msg_id room_token)

-- `JoinRoom`, when no other caller runs between the two; Hpb/Loops has them apart.
unfoldable pub join_room : Bool → String → Client → Client × Bool
unfolding send_message
join_room ok room_token c = let (c', m) = drawn_join room_token c in send_message ok m c'

-- What `SendTranscript` and `SendTranscriptViaBackend` say of a transcript
abbrev pub transcript_data : String → String → String → Bool → Fields
transcript_data text lang_id speaker_session final = field "type" (Value.string "transcript") (
    field "message" (Value.string text) (
      field "langId" (Value.string lang_id) (
        field "speakerSessionId" (Value.string speaker_session)
          (field "final" (Value.bool final) end))))

-- `SendTranscript`, up to its call of `SendMessage`
abbrev pub drawn_transcript : String → String → String → String → Bool → Client → Client × Outgoing
drawn_transcript recipient text lang_id speaker_session final c =
    let c' = next_msg_id c in
    (
      c',
      transcript c'.msg_id (record {
        sender = none;
        recipient = some (record { kind = "session"; session_id = recipient; user_id = "" });
        payload = some (transcript_data text lang_id speaker_session final);
      }),
    )

-- The message goes to the room's channel, or is dropped when that is full. Where the client is
-- cancelled the send may be given up.
abbrev pub deliver : Bool → HpbMessage → Client → Client
deliver quit m c =
    if quit && c.cancelled then c else record c { msg_chan = offer msg_cap c.msg_chan m }

-- `onHello`
unfoldable pub on_hello : Bool → HelloResponse → Client → Client
on_hello quit m c =
    deliver quit (hello m) (record c { resume_id = m.resume_id; session_id = m.session_id })

-- The `switch` of `handleMessage`, on what was decoded.
unfoldable pub route : Bool → Bool → Incoming → Client → Client
unfolding on_hello send_message
route quit ok (for_room (hello m)) c = on_hello quit m c
route quit ok (for_room (room m)) c = deliver quit (room m) c
route quit ok (for_room (event m)) c = deliver quit (event m) c
route quit ok (for_room (message m)) c = deliver quit (message m) c
route quit ok (for_room (bye m)) c = deliver quit (bye m) c
route quit ok ping c = (send_message ok pong c).0
route quit ok welcome c = c
route quit ok reported_error c = c
route quit ok other c = c
route quit ok malformed c = c

-- What stands behind the first space
abbrev pub behind_space : List ℕ → Option (List ℕ)
behind_space [] = none
behind_space (b ∷ bs) = if b == 32 then some bs else behind_space bs

-- The data without a signature before it: data that starts with a brace or a bracket has none.
unfoldable pub strip_signature : List ℕ → List ℕ
strip_signature [] = []
strip_signature (b ∷ bs) =
    if not (b == 123) && not (b == 91)
    then (elim (behind_space (b ∷ bs)) [ none ↦ b ∷ bs | some json ↦ json ])
    else b ∷ bs

module _ (decode : List ℕ → Incoming) where
  -- `handleMessage`
  unfoldable pub handle_message : Bool → Bool → List ℕ → Client → Client
  unfolding route strip_signature
  handle_message quit ok data_bytes c = route quit ok (decode (strip_signature data_bytes)) c

-- The read loop meets an error and ends. An error of a closed connection, or of
-- a cancelled context, is not reported.
unfoldable pub on_read_error : Bool → String → Client → Client
on_read_error of_closed e c = record c {
  err_chan = if of_closed then c.err_chan else offer err_cap c.err_chan e;
  reading = c.reading - 1;
}

module _ (hmac_sha256 : String → String → String) where
  -- `sendHello`, for the nonce that it draws where it needs one
  unfoldable pub hello_auth : String → Config → Auth
  hello_auth nonce c =
      if not (is_empty c.token)
      then by_token (String.◌++◌ c.backend_url "ocs/v2.php/apps/spreed/api/v3/signaling/backend")
          c.token
      else if not (is_empty c.ticket)
      then by_ticket c.ticket_url c.ticket
      else internal nonce (hmac_sha256 c.secret nonce) c.backend_url

  unfoldable pub send_hello : Bool → String → Client → Client × Bool
  send_hello ok nonce c =
      let c' = next_msg_id c in write ok (hello_request c'.msg_id (hello_auth nonce c'.config)) c'

  -- The connection is there: the hello is sent and the two loops are started.
  abbrev pub started : Client × Bool → Client × Bool
  started (c, sent) =
      if sent
      then (record c { reading = c.reading + 1; writing = c.writing + 1 }, true)
      else (record c { has_conn = false }, false)

  -- `Connect`, given whether the dial and the write of the hello succeed.
  unfoldable pub connect : Bool → Bool → String → Client → Client × Bool
  unfolding send_hello
  connect dialled ok nonce c =
      let idle = record c { has_conn = false; closed = false } in
      if dialled
      then started (send_hello ok nonce (record idle { has_conn = true }))
      else (idle, false)

-- `sendPing`, the write loop's control frame: whether it is written.
unfoldable pub send_ping : Bool → Client → Bool
send_ping ok c = c.has_conn && ok

-- A write loop sees the cancelled context, or the closed channel, and ends.
unfoldable pub end_write_loop : Client → Client
end_write_loop c = if c.cancelled || c.closed then record c { writing = c.writing - 1 } else c

-- `Close`, up to its wait for the loops: `none` is the panic of closing a closed channel.
unfoldable pub close : Client → Option Client
close c =
    if c.closed then none else some (record c { cancelled = true; closed = true; has_conn = false })
