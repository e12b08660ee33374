-- ===== src/Modal/Reading.antt =====
-- What the read loop of pkg/modal/client.go makes of the service's messages, and what a dial sends.
use nc_kyutai_live_transcrip.Prelude.{
  Bool, Bool-cases, Dict, List, Option, Option-cases, String, [], ap, append-nil, arith, false,
  if◌then◌else◌, inl, inr, length, length-offer, lookup, none, refl, some, str_eq, str_eq_iff, sym,
  take, take-offer, take_all, true, ◌++◌, ◌∙◌, ◌∷◌, ◌≡◌, ◌≢◌, ◌≤◌, ◌⊎◌,
}
use nc_kyutai_live_transcrip.Json.{Fields, get_field, string_or_empty}
use nc_kyutai_live_transcrip.Modal.Client.{
  Transcript, ModalError, service_error, Config, Client, transcript_cap, err_cap, is_empty,
  auth_headers, token_or_end, on_text,
}

-- The read loop over text messages, while nothing takes from the channels and the client is not
-- cancelled.
unfoldable pub on_texts : List (Option Fields) → Client → Client
unfolding on_text
on_texts [] c = c
on_texts (m ∷ ms) c = on_texts ms (on_text false m c)

-- What a message stands for: a transcript, an error, or nothing.
abbrev pub transcript_of : Option Fields → List Transcript
transcript_of none = []
transcript_of (some msg) = elim (token_or_end (string_or_empty (get_field "type" msg)) msg) [
  | none ↦ []
  | some t ↦ t ∷ []
]

abbrev pub error_of : Option Fields → List ModalError
error_of none = []
error_of (some msg) =
    if str_eq (string_or_empty (get_field "type" msg)) "error"
    then service_error (string_or_empty (get_field "message" msg)) ∷ []
    else []

abbrev pub transcripts_of : List (Option Fields) → List Transcript
transcripts_of [] = []
transcripts_of (m ∷ ms) = transcript_of m ++ transcripts_of ms

abbrev pub errors_of : List (Option Fields) → List ModalError
errors_of [] = []
errors_of (m ∷ ms) = error_of m ++ errors_of ms

-- The channels are within their capacities.
abbrev pub IsBounded : Client → Type 0
IsBounded c = (length c.transcript_ch ≤ transcript_cap) × (length c.err_ch ≤ err_cap)

abbrev pub type_of : Fields → String
type_of msg = string_or_empty (get_field "type" msg)

-- A transcript is not an error.
not_both :
    (msg : Fields) (t : Transcript)
    → token_or_end (type_of msg) msg ≡ some t
    → str_eq (type_of msg) "error" ≡ false
unfolding token_or_end
not_both msg t h = elim (Bool-cases (str_eq (type_of msg) "token")) [
  | inl token ↦ rw ((str_eq_iff (type_of msg) "token").0 token) refl
  | inr other ↦ elim (Bool-cases (str_eq (type_of msg) "vad_end")) [
    | inl end ↦ rw ((str_eq_iff (type_of msg) "vad_end").0 end) refl
    | inr neither ↦ absurd (cc (rw (other, neither) at h))
  ]
]

on_text-IsBounded : (m : Option Fields) (c : Client) → IsBounded c → IsBounded (on_text false m c)
unfolding on_text
on_text-IsBounded none c b = b
on_text-IsBounded (some msg) c b = elim (Option-cases (token_or_end (type_of msg) msg)) [
  | inr (t, is) ↦ rw (is, on_text) (length-offer transcript_cap c.transcript_ch t b.0, b.1)
  | inl other ↦ elim (Bool-cases (str_eq (type_of msg) "error")) [
    | inl bad ↦ rw (other, on_text) (rw (bad, on_text) (b.0, length-offer err_cap c.err_ch _ b.1))
    | inr unknown ↦ rw (other, on_text) (rw (unknown, on_text) b)
  ]
]

on_text-transcripts :
    (m : Option Fields) (c : Client) (ts : List Transcript)
    → length c.transcript_ch ≤ transcript_cap
    → take transcript_cap ((on_text false m c).transcript_ch ++ ts)
      ≡ take transcript_cap (c.transcript_ch ++ (transcript_of m ++ ts))
unfolding on_text
on_text-transcripts none c ts b = refl
on_text-transcripts (some msg) c ts b = elim (Option-cases (token_or_end (type_of msg) msg)) [
  | inr (t, is) ↦ rw (is, on_text, transcript_of) (take-offer transcript_cap c.transcript_ch t ts b)
  | inl other ↦ elim (Bool-cases (str_eq (type_of msg) "error")) [
    | inl bad ↦ rw (other, on_text, transcript_of) (rw (bad, on_text) refl)
    | inr unknown ↦ rw (other, on_text, transcript_of) (rw (unknown, on_text) refl)
  ]
]

on_text-errors :
    (m : Option Fields) (c : Client) (es : List ModalError)
    → length c.err_ch ≤ err_cap
    → take err_cap ((on_text false m c).err_ch ++ es)
      ≡ take err_cap (c.err_ch ++ (error_of m ++ es))
unfolding on_text
on_text-errors none c es b = refl
on_text-errors (some msg) c es b = elim (Option-cases (token_or_end (type_of msg) msg)) [
  | inr (t, is) ↦ rw (is, on_text) (rw (not_both msg t is, error_of) refl)
  | inl other ↦ elim (Bool-cases (str_eq (type_of msg) "error")) [
    | inl bad ↦
        rw (other, on_text) (rw (bad, on_text, error_of) (take-offer err_cap c.err_ch _ es b))
    | inr unknown ↦ rw (other, on_text) (rw (unknown, on_text, error_of) refl)
  ]
]

-- The messages of the service, while nothing is taken from the channels and the client is not
-- cancelled, from channels within their capacities: the transcript channel then holds the oldest
-- fifty of what it held and of the transcripts that the messages stand for, in order, and the error
-- channel the oldest ten of what it held and of the errors that they report. So what comes is kept
-- in order while there is room, the newest is dropped when there is none, and a message that does
-- not decode or is of another type does nothing.
pub on_texts-oldest :
    (ms : List (Option Fields)) (c : Client)
    → IsBounded c
    → let c' = on_texts ms c in
      (c'.transcript_ch ≡ take transcript_cap (c.transcript_ch ++ transcripts_of ms))
      × (c'.err_ch ≡ take err_cap (c.err_ch ++ errors_of ms))
unfolding on_texts
on_texts-oldest [] c b = (
  sym (
      ap (take transcript_cap) (append-nil c.transcript_ch)
      ∙ take_all transcript_cap c.transcript_ch b.0),
  sym (ap (take err_cap) (append-nil c.err_ch) ∙ take_all err_cap c.err_ch b.1),
)
on_texts-oldest (m ∷ ms) c b =
    let (p, q) = on_texts-oldest ms (on_text false m c) (on_text-IsBounded m c b) in
    (p ∙ on_text-transcripts m c (transcripts_of ms) b.0, q ∙ on_text-errors m c (errors_of ms) b.1)

-- A header that is there unless a condition holds, and the headers behind it
optional_header :
    (absent : Bool) (key text name value : String) (rest : Dict String)
    → lookup name ((if absent then [] else (key, text) ∷ []) ++ rest) ≡ some value
    → ((absent ≡ false) × (name ≡ key) × (value ≡ text)) ⊎ (lookup name rest ≡ some value)
unfolding lookup
optional_header true key text name value rest h = inr h
optional_header false key text name value rest h = ground (arith, str_eq_iff key name)

-- Credentials: a header that a dial sends is the key or the secret of the configuration, under its
-- name and not empty, and then the configuration has no URL of its own: credentials never go to a
-- custom server.
pub auth_headers-private :
    (config : Config) (name value : String)
    → lookup name (auth_headers config) ≡ some value
    → (config.stream_url ≡ "")
      × (value ≢ "")
      × (((name ≡ "Modal-Key") × (value ≡ config.key))
          ⊎ ((name ≡ "Modal-Secret") × (value ≡ config.secret)))
unfolding auth_headers lookup
auth_headers-private config name value h = elim (Bool-cases (is_empty config.stream_url)) [
  | inr custom ↦ absurd (cc (rw custom at h))
  | inl fallback ↦
      let from_secret =
        optional_header (is_empty config.secret) "Modal-Secret" config.secret name value [] in
      ground (
        arith,
        str_eq_iff config.stream_url "",
        str_eq_iff config.key "",
        str_eq_iff config.secret "",
        optional_header (is_empty config.key) "Modal-Key" config.key name value
            (if is_empty config.secret then [] else ("Modal-Secret", config.secret) ∷ [])
            (rw fallback at h),
        from_secret,
      )
]
