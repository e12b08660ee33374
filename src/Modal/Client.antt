-- ===== src/Modal/Client.antt =====
-- pkg/modal/client.go. The WebSocket is a parameter: what a dial, a write or a read gives is an
-- argument. A channel is the list of what it holds, oldest first, with its capacity.
use Prim.Native.String
use nc_kyutai_live_transcrip.Prelude.{
  Bool, Dict, List, Option, String, [], false, if◌then◌else◌, none, offer, some, str_eq, true, ℕ,
  ◌&&◌, ◌++◌, ◌+◌, ◌-◌, ◌∷◌,
}
use nc_kyutai_live_transcrip.Json.{Fields, get_field, string_or_empty}

-- `Transcript`; `Type` and `VADEnd` repeat what `Final` says, and `Message` is never set.
pub record Transcript : Type 0 where
  pub text : String
  pub final : Bool

-- An error on the error channel: of a read, with whether it is a close with code 1000, or one
-- that the service reports in a message.
pub data ModalError : Type 0 where
  read_error : Bool → ModalError
  service_error : String → ModalError

-- `IsNormalClose`
unfoldable pub is_normal_close : ModalError → Bool
is_normal_close (read_error normal) = normal
is_normal_close (service_error message) = false

pub record Config : Type 0 where
  pub workspace : String
  pub stream_url : String
  pub key : String
  pub secret : String

-- `Client`, with `has_conn` for `conn != nil`, `reading` for the number of running read loops and
-- `cancelled` for its context.
pub record Client : Type 0 where
  pub config : Config
  pub has_conn : Bool
  pub connected : Bool
  pub cancelled : Bool
  pub reading : ℕ
  pub transcript_ch : List Transcript
  pub err_ch : List ModalError

abbrev pub transcript_cap : ℕ
transcript_cap = 50

abbrev pub err_cap : ℕ
err_cap = 10

-- `NewClient`
unfoldable pub new_client : Config → Client
new_client config = record {
  config = config;
  has_conn = false;
  connected = false;
  cancelled = false;
  reading = 0;
  transcript_ch = [];
  err_ch = [];
}

abbrev pub is_empty : String → Bool
is_empty s = str_eq s ""

-- The URL that `Connect` dials.
unfoldable pub stt_url : Config → String
stt_url c =
    if is_empty c.stream_url
    then String.◌++◌ "wss://"
        (String.◌++◌ c.workspace "--kyutai-stt-rust-kyutaisttrustservice-serve.modal.run/v1/stream")
    else c.stream_url

-- The headers that `Connect` sends.
unfoldable pub auth_headers : Config → Dict String
auth_headers c =
    if is_empty c.stream_url
    then (if is_empty c.key then [] else ("Modal-Key", c.key) ∷ [])
      ++ (if is_empty c.secret then [] else ("Modal-Secret", c.secret) ∷ [])
    else []

-- `Connect`, given whether the dial succeeds. `true` is a nil error.
unfoldable pub connect : Bool → Client → Client × Bool
connect dialled c =
    if dialled
    then (record c { has_conn = true; connected = true; reading = c.reading + 1 }, true)
    else (c, false)

-- `IsConnected`
unfoldable pub is_connected : Client → Bool
is_connected c = c.connected

-- `SendAudio`: the samples that it writes to the connection as one binary message, or the error of
-- a client that is not connected. That a write fails changes nothing and is only logged.
unfoldable pub send_audio {ℓ} : {A : Type ℓ} → Client → List A → Option (List A)
send_audio c audio = if c.has_conn && c.connected then some audio else none

-- The read loop meets an error: first the error is queued, then the client is marked as not
-- connected and the loop ends. Another goroutine may run between the two.
unfoldable pub report_read_error : Bool → Client → Client
report_read_error normal c = record c { err_ch = offer err_cap c.err_ch (read_error normal) }

unfoldable pub mark_disconnected : Client → Client
mark_disconnected c = record c { connected = false; reading = c.reading - 1 }

-- `Close`, up to its wait for the read loop, whose read the closed connection ends.
unfoldable pub close : Client → Client
close c = record c {
  has_conn = false;
  connected = if c.has_conn then false else c.connected;
  cancelled = true;
}

unfoldable pub token_or_end : String → Fields → Option Transcript
token_or_end msg_type msg =
    if str_eq msg_type "token"
    then some (record { text = string_or_empty (get_field "text" msg); final = false })
    else if str_eq msg_type "vad_end"
    then some (record { text = ""; final = true })
    else none

-- The send of a transcript: where the client is cancelled the loop may end instead.
abbrev pub deliver : Bool → Client → Transcript → Client
deliver quit c t =
    if quit && c.cancelled
    then record c { reading = c.reading - 1 }
    else record c { transcript_ch = offer transcript_cap c.transcript_ch t }

-- The read loop gets a text message, decoded or not.
unfoldable pub on_text : Bool → Option Fields → Client → Client
unfolding token_or_end
on_text quit none c = c
on_text quit (some msg) c =
    let msg_type = string_or_empty (get_field "type" msg) in
    elim (token_or_end msg_type msg) [
      | some t ↦ deliver quit c t
      | none ↦
          if str_eq msg_type "error"
          then record c {
            err_ch =
                offer err_cap c.err_ch (service_error (string_or_empty (get_field "message" msg)));
          }
          else c
    ]
