-- ===== src/Session/Broadcast/Heard.antt =====
-- What the signaling server makes of the captions that a transcriber of pkg/session broadcasts.
use Prim.Native.String
use nc_kyutai_live_transcrip.Prelude.{
  Bool, List, Option, String, [], ap, arith, false, if◌then◌else◌, map, none, refl, some, str_eq,
  str_eq_refl, true, ℕ, ◌&&◌, ◌+◌, ◌>>=◌, ◌∙◌, ◌∷◌, ◌≡◌,
}
use nc_kyutai_live_transcrip.Json.{
  Value, string, bool, object, Fields, field, end, get_field, as_object, string_or_empty, is_true,
}
use nc_kyutai_live_transcrip.Text.Search.{has_slash, IsPath}
use nc_kyutai_live_transcrip.Hpb.Urls.Origins.{ws_url, origin, long_enough, room_url-origin}
use nc_kyutai_live_transcrip.Hpb.Urls.{room_url}
use nc_kyutai_live_transcrip.Hpb.Client.{transcript_data, with_backend}
use nc_kyutai_live_transcrip.Hpb.Broadcast.{
  RoomPost, Backend, Sending, panicked, unposted, posted, message_body, post_error, signed_post,
  send_room_message-posted,
}
use nc_kyutai_live_transcrip.Session.Manager.{ManagerConfig}
use nc_kyutai_live_transcrip.Session.Transcriber.{Caption, CaptionEvent, caption_run, new_captioner}
use nc_kyutai_live_transcrip.Session.Transcriber.Captions.{finals, segments, captions_refine}
use nc_kyutai_live_transcrip.Session.Broadcast.{
  Source, room_client_config, broadcast, broadcast_all,
}

-- A transcript that the server passes on to the room
pub record Heard : Type 0 where
  pub text : String
  pub lang_id : String
  pub session_id : String
  pub final : Bool

abbrev heard_data : Fields → Heard
heard_data fs = record {
  text = string_or_empty (get_field "message" fs);
  lang_id = string_or_empty (get_field "langId" fs);
  session_id = string_or_empty (get_field "speakerSessionId" fs);
  final = is_true (get_field "final" fs);
}

abbrev passed_on : Fields → Option Heard
passed_on body = as_object (get_field "message" body) >>= λ message.
    as_object (get_field "data" message) >>= λ payload. some (heard_data payload)

-- What decoding finds at a key, of a value that was encoded: the same text or truth value, and for
-- an object one that holds all of its fields, in whatever order. Other values do not occur here.
unfoldable mutual
  pub Matches : Value → Option Value → Type 0
  Matches (string s) found = found ≡ some (string s)
  Matches (bool b) found = found ≡ some (bool b)
  Matches (object fs) found = (gs : Fields) × (found ≡ some (object gs)) × Holds fs gs
  Matches _ found = Unit {0}

  pub Holds : Fields → Fields → Type 0
  Holds end gs = Unit {0}
  Holds (field k v fs) gs = Matches v (get_field k gs) × Holds fs gs

module _ {D : Type 0} (hmac_sha256 : String → String → D → String)
    (unmarshal : D → Option Fields) where
  -- What a server with the given secret makes of a request, for the room with the given URL: it
  -- checks the MAC, and decodes the body.
  abbrev pub hear : String → String → RoomPost D → Option Heard
  hear secret url p =
      if str_eq p.url url && str_eq p.checksum (hmac_sha256 secret p.random p.body)
      then unmarshal p.body >>= passed_on
      else none

  abbrev pub hear_all : String → String → List (Sending D) → List Heard
  hear_all secret url [] = []
  hear_all secret url (panicked ∷ ss) = hear_all secret url ss
  hear_all secret url (unposted e ∷ ss) = hear_all secret url ss
  hear_all secret url (posted p e ∷ ss) = elim (hear secret url p) [
    | none ↦ hear_all secret url ss
    | some h ↦ h ∷ hear_all secret url ss
  ]

abbrev pub heard_of : Source → Caption → Heard
heard_of s c = record {
  text = c.text;
  lang_id = s.lang_id;
  session_id = s.session_id;
  final = c.final;
}

abbrev pub final_texts : List Heard → List String
final_texts [] = []
final_texts (h ∷ hs) = if h.final then h.text ∷ final_texts hs else final_texts hs

final_texts-heard : (s : Source) (cs : List Caption) → final_texts (map (heard_of s) cs) ≡ finals cs
final_texts-heard s [] = refl
final_texts-heard s (c ∷ cs) = ground (arith, final_texts-heard s cs)

-- The body of the request for a transcript
abbrev pub body_of : String → String → String → Bool → Fields
body_of text lang_id session_id final = message_body (transcript_data text lang_id session_id final)

-- encoding/json, on the body of a transcript: it is encoded, and decoding the data gives an object
-- that holds its fields.
abbrev pub IsCodec : {D : Type 0} → (Fields → Option D) → (D → Option Fields) → Type 0
IsCodec {D} marshal unmarshal =
    (text lang_id session_id : String) (final : Bool)
    → (d : D) × (decoded : Fields) × (marshal (body_of text lang_id session_id final) ≡ some d)
      × (unmarshal d ≡ some decoded)
      × Holds (body_of text lang_id session_id final) decoded

module _ {D : Type 0} (b : Backend D) (unmarshal : D → Option Fields) (cfg : ManagerConfig)
    (nonce : ℕ → String) (s : Source) (url : String) where
  -- The request for a caption whose body is encoded
  abbrev request_for : ℕ → D → RoomPost D
  request_for n body = signed_post b url (nonce n) body (with_backend (room_client_config cfg))

  broadcast-posted :
      (c : Caption) (n : ℕ) (body : D)
      → room_url cfg.hpb_url s.room_token ≡ some url
      → b.is_url url ≡ true
      → b.marshal (message_body (transcript_data c.text s.lang_id s.session_id c.final)) ≡ some body
      → broadcast b cfg nonce s c n
        ≡ posted (request_for n body) (post_error (b.reply (request_for n body)))
  unfolding broadcast
  broadcast-posted c n body eu ok em =
      send_room_message-posted b (nonce n) s.room_token url _
        (with_backend (room_client_config cfg)) body eu ok em

  -- The server reads the same of whatever object holds the fields.
  passed_on-Holds :
      (text lang_id session_id : String) (final : Bool) (decoded : Fields)
      → Holds (body_of text lang_id session_id final) decoded
      → passed_on decoded
        ≡ some (record { text = text; lang_id = lang_id; session_id = session_id; final = final })
  unfolding Holds
  passed_on-Holds text lang_id session_id final decoded (kind, rest) =
      let ((ms, e, outer), _) = rest in
      let ((ps, f, fields), _) = outer in
      let (_, after_type) = fields in
      let (said, after_text) = after_type in
      let (language, after_language) = after_text in
      let (speaker, after_speaker) = after_language in
      let (last, _) = after_speaker in
      rw (e, passed_on) (rw (f, passed_on) (rw (said, language, speaker, last) refl))

  hear-request :
      (c : Caption) (n : ℕ) (body : D) (decoded : Fields)
      → unmarshal body ≡ some decoded
      → Holds (body_of c.text s.lang_id s.session_id c.final) decoded
      → hear b.hmac_sha256 unmarshal cfg.hpb_signaling_secret url (request_for n body)
        ≡ some (heard_of s c)
  hear-request c n body decoded ed holds = rw (str_eq_refl url) (
      rw (str_eq_refl (b.hmac_sha256 cfg.hpb_signaling_secret (nonce n) body))
        (rw ed (passed_on-Holds c.text s.lang_id s.session_id c.final decoded holds)))

  broadcast_all-heard :
      room_url cfg.hpb_url s.room_token ≡ some url
      → b.is_url url ≡ true
      → IsCodec b.marshal unmarshal
      → (cs : List Caption) (n : ℕ)
      → hear_all b.hmac_sha256 unmarshal cfg.hpb_signaling_secret url
          (broadcast_all b cfg nonce s cs n)
        ≡ map (heard_of s) cs
  unfolding broadcast_all
  broadcast_all-heard eu ok codec [] n = refl
  broadcast_all-heard eu ok codec (c ∷ cs) n =
      let (d, decoded, encoded, e, holds) = codec c.text s.lang_id s.session_id c.final in
      rw (broadcast-posted c n d eu ok encoded) (
        rw (hear-request c n d decoded e holds, hear_all)
          (ap (◌∷◌ (heard_of s c)) (broadcast_all-heard eu ok codec cs (n + 1))))

-- The way of the captions, for a server below a WebSocket URL with a host that is long enough and a
-- path, a room's URL that net/http accepts, and encoding of a transcript's body as data in which
-- decoding finds its fields again, in whatever order: whatever happens to a
-- new transcriber, and whatever the server answers to a request, the server, which checks each MAC
-- with its secret, accepts every caption in order, with the room's language and the speaker's
-- session; and the final texts that it hears are the utterances that the specification cuts.
pub broadcasts-heard :
    {D : Type 0} (b : Backend D) (unmarshal : D → Option Fields) (cfg : ManagerConfig)
    (nonce : ℕ → String) (s : Source) (tls : Bool) (host path : String)
    (es : List (ℕ × CaptionEvent))
    → cfg.hpb_url ≡ ws_url tls host path
    → has_slash host ≡ false
    → long_enough tls host ≡ true
    → IsPath path
    → IsCodec b.marshal unmarshal
    → let url = String.◌++◌ (origin tls host) (String.◌++◌ "/api/v1/room/" s.room_token) in
      b.is_url url ≡ true
      → let captions = (caption_run new_captioner es).1 in
        let heard =
          hear_all b.hmac_sha256 unmarshal cfg.hpb_signaling_secret url
            (broadcast_all b cfg nonce s captions 0) in
        (heard ≡ map (heard_of s) captions) × (final_texts heard ≡ (segments "" es).1)
broadcasts-heard b unmarshal cfg nonce s tls host path es at_url h l w codec ok =
    let url = String.◌++◌ (origin tls host) (String.◌++◌ "/api/v1/room/" s.room_token) in
    let captions = (caption_run new_captioner es).1 in
    let heard =
      broadcast_all-heard b unmarshal cfg nonce s url
        (ap (λ u. room_url u s.room_token) at_url
          ∙ room_url-origin tls host path s.room_token h l w)
        ok codec captions 0 in
    (
      heard,
      ap final_texts heard
          ∙ final_texts-heard s captions
          ∙ (captions_refine new_captioner es refl).1,
    )
