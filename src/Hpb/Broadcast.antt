-- ===== src/Hpb/Broadcast.antt =====
-- pkg/hpb/client.go: `SendRoomMessage`, which posts to the backend interface of the signaling
-- server. Encoding as JSON, with the type `D` of the data that it gives, the MAC, the check of a
-- URL by net/http and the server are parameters.

use nc_kyutai_live_transcrip.Prelude.{
  Bool, Option, String, if◌then◌else◌, none, refl, some, true, ℕ, ◌==◌, ◌≡◌,
}
use nc_kyutai_live_transcrip.Json.{Value, Fields, field, end}
use nc_kyutai_live_transcrip.Hpb.Urls.{room_url}
use nc_kyutai_live_transcrip.Hpb.Client.{Config, transcript_data}

-- The request: its URL, its body and the headers "Spreed-Signaling-…".
pub record RoomPost (D : Type 0) : Type 0 where
  pub url : String
  pub random : String
  pub checksum : String
  pub backend : String
  pub body : D

-- The libraries and the server. The MAC is that of two texts written one after the other; a reply
-- is its status, and `none` a request that fails.
pub record Backend (D : Type 0) : Type 0 where
  pub marshal : Fields → Option D
  pub hmac_sha256 : String → String → D → String
  pub is_url : String → Bool
  pub reply : RoomPost D → Option ℕ

pub data PostError : Type 0 where
  unmarshallable bad_url unreachable : PostError
  refused : ℕ → PostError

-- How a call ends: with a panic, or with what was posted, if it came to that, and an error or none.
pub data Sending (D : Type 0) : Type 0 where
  panicked : Sending D
  unposted : PostError → Sending D
  posted : RoomPost D → Option PostError → Sending D

abbrev pub message_body : Fields → Fields
message_body payload =
    field "type" (Value.string "message")
      (field "message" (Value.object (field "data" (Value.object payload) end)) end)

abbrev pub post_error : Option ℕ → Option PostError
post_error none = some unreachable
post_error (some status) = if status == 200 then none else some (refused status)

module _ {D : Type 0} (b : Backend D) where
  -- The request to a URL, for the nonce that is drawn and the encoded body
  abbrev pub signed_post : String → String → D → Config → RoomPost D
  signed_post url random body c = record {
    url = url;
    random = random;
    checksum = b.hmac_sha256 c.signaling_secret random body;
    backend = c.backend_url;
    body = body;
  }

  -- `SendRoomMessage`
  unfoldable pub send_room_message : String → String → Fields → Config → Sending D
  send_room_message random room_token payload c = elim (room_url c.hpb_url room_token) [
    | none ↦ panicked
    | some url ↦ elim (b.marshal (message_body payload)) [
      | none ↦ unposted unmarshallable
      | some body ↦
          let post = signed_post url random body c in
          if b.is_url url then posted post (post_error (b.reply post)) else unposted bad_url
    ]
  ]

  -- `SendTranscriptViaBackend`
  unfoldable pub send_transcript_via_backend :
      String → String → String → String → String → Bool → Config → Sending D
  unfolding send_room_message
  send_transcript_via_backend random room_token text lang_id speaker_session final c =
      send_room_message random room_token (transcript_data text lang_id speaker_session final) c

  -- Where the URL is derived and accepted and the body is encoded, a request is made.
  pub send_room_message-posted :
      (random room_token url : String) (payload : Fields) (c : Config) (body : D)
      → room_url c.hpb_url room_token ≡ some url
      → b.is_url url ≡ true
      → b.marshal (message_body payload) ≡ some body
      → send_room_message random room_token payload c
        ≡ posted
            (signed_post url random body c)
            (post_error (b.reply (signed_post url random body c)))
  unfolding send_room_message
  send_room_message-posted random room_token url payload c body eu ok em =
      rw (eu, send_room_message) (rw (em, send_room_message) (rw (ok, send_room_message) refl))
