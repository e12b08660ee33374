-- ===== src/Session/Broadcast/Tests.antt =====
-- A speaker's captions on their way to the signaling server, and the property at them.
use Prim.Native.String
use nc_kyutai_live_transcrip.Prelude.{
  List, String, [], arith, false, map, pos, refl, some, true, ℕ, ◌∷◌, ◌≡◌,
}
use nc_kyutai_live_transcrip.Json.{Value, object, Fields, field, end, get_field}
use nc_kyutai_live_transcrip.Hpb.Client.{transcript_data}
use nc_kyutai_live_transcrip.Hpb.Broadcast.{Backend}
use nc_kyutai_live_transcrip.Session.Manager.{ManagerConfig}
use nc_kyutai_live_transcrip.Session.Transcriber.{
  CaptionEvent, transcript, tick, ending, caption_run, new_captioner,
}
use nc_kyutai_live_transcrip.Session.Transcriber.Captions.{segments}
use nc_kyutai_live_transcrip.Session.Broadcast.{Source, broadcast_all}
use nc_kyutai_live_transcrip.Session.Broadcast.Heard.{
  Holds, IsCodec, body_of, hear_all, heard_of, final_texts, broadcasts-heard,
}

-- Decoding finds the first field behind the others.
abbrev at_end : String → Value → Fields → Fields
at_end k v end = field k v end
at_end k v (field j w rest) = field j w (at_end k v rest)

abbrev turned : Fields → Fields
turned end = end
turned (field k v rest) = at_end k v rest

-- Data is what it encodes, and the server answers that it is overloaded.
abbrev server : Backend Fields
server = record {
  marshal = λ fs. some fs;
  hmac_sha256 = λ secret random body. String.◌++◌ secret random;
  is_url = λ url. true;
  reply = λ p. some 503;
}

server-IsCodec : IsCodec server.marshal (λ d. some (turned d))
unfolding Holds get_field
server-IsCodec text lang_id session_id final =
    let body = body_of text lang_id session_id final in
    let payload = transcript_data text lang_id session_id final in
    (
      body,
      turned body,
      refl,
      refl,
      (
        refl,
        (
          (
            field "data" (object payload) end,
            refl,
            ((payload, refl, (refl, (refl, (refl, (refl, (refl, tt)))))), tt),
          ),
          tt,
        ),
      ),
    )

abbrev settings : ManagerConfig
settings = record {
  hpb_url = "wss://talk.example.com/standalone-signaling/spreed";
  hpb_secret = "internal";
  hpb_signaling_secret = "signaling";
  hpb_backend_url = "";
  modal = record { workspace = "acme"; stream_url = ""; key = "k1"; secret = "s1" };
  max_speakers = pos 500;
}

abbrev alice : Source
alice = record { room_token = "t1"; lang_id = "en"; session_id = "s1" }

abbrev token_of : String → CaptionEvent
token_of text = transcript (record { text = text; final = false })

abbrev speech : List (ℕ × CaptionEvent)
speech =
    (1000, token_of "Hello")
    ∷ (1010, token_of " there")
    ∷ (1080, tick)
    ∷ (1500, transcript (record { text = ""; final = true }))
    ∷ (2000, token_of "Bye")
    ∷ (2100, ending)
    ∷ []

broadcasts-heard_example :
    let url =
      String.◌++◌ (String.◌++◌ "https://" "talk.example.com") (String.◌++◌ "/api/v1/room/" "t1") in
    let captions = (caption_run new_captioner speech).1 in
    let heard =
      hear_all server.hmac_sha256
        (λ d. some (turned d))
        "signaling"
        url
        (broadcast_all server settings (λ n. "nonce") alice captions 0) in
    (heard ≡ map (heard_of alice) captions) × (final_texts heard ≡ (segments "" speech).1)
broadcasts-heard_example =
    broadcasts-heard server (λ d. some (turned d)) settings (λ n. "nonce") alice true
      "talk.example.com" "/standalone-signaling/spreed" speech refl refl refl (refl, omega arith)
      server-IsCodec refl

said : (segments "" speech).1 ≡ "Hello there" ∷ "Bye" ∷ []
said = refl
