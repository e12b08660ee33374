-- ===== src/Nextcloud/Requests.antt =====
-- What the client of pkg/nextcloud/ocs.go sends, and how it takes a refusal.
use nc_kyutai_live_transcrip.Prelude.{
  All, All-append, Bool, List, Option, Option-cases, String, [], arith, false, inl, inr, none, refl,
  some, true, ℕ, ◌∷◌, ◌≡◌, ◌≢◌,
}
use nc_kyutai_live_transcrip.Json.{Value, Fields}
use nc_kyutai_live_transcrip.Modal.Client.{is_empty}
use nc_kyutai_live_transcrip.Nextcloud.Client.{
  Client, Method, Request, Reply, parsed, initialize, request_of, checked, spreed, exchange,
  ocs_post, ocs_get, ocs_delete, joined, join_as_guest, set_guest_name, get_signaling_settings,
  join_call, leave_call, enable_transcription, disable_transcription,
}
use Prim.Native.String

-- A call of one of the client's methods
pub data Call : Type 0 where
  joins : (Value → Option String) → Call
  names : String → Call
  settings : (Value → Bool) → Call
  enters_call leaves_call : Call
  enables : String → Call
  disables : Call

module _ (serve : List Request → Request → Reply) where
  unfoldable pub perform : Call → Client → Client
  perform (joins read) c = (join_as_guest serve read c).0
  perform (names name) c = (set_guest_name serve name c).0
  perform (settings readable) c = (get_signaling_settings serve readable c).0
  perform enters_call c = (join_call serve c).0
  perform leaves_call c = (leave_call serve c).0
  perform (enables language) c = (enable_transcription serve language c).0
  perform disables c = (disable_transcription serve c).0

  unfoldable pub perform_all : List Call → Client → Client
  unfolding perform
  perform_all [] c = c
  perform_all (call ∷ calls) c = perform_all calls (perform call c)

-- The request is for the room, on the server, and has the token.
abbrev pub IsSigned : String → String → String → Request → Type 0
IsSigned base room token r =
    (r.requesttoken ≡ some token)
    × (before : String) × (after : String) × (r.url ≡ String.◌++◌ base (spreed before room after))

-- The client has the token, and all its requests are signed.
pub record IsLoggedIn (base room token : String) (c : Client) : Type 0 where
  pub has_base : c.base_url ≡ base
  pub has_room : c.room_token ≡ room
  pub has_token : c.request_token ≡ token
  pub signed : All (IsSigned base room token) c.requests

module _ (serve : List Request → Request → Reply) (base room token : String)
    (real : is_empty token ≡ false) where
  exchange-IsLoggedIn :
      (method : Method) (before after : String) (body : Fields) (c : Client)
      → IsLoggedIn base room token c
      → IsLoggedIn base room token
          (exchange serve (request_of method (spreed before c.room_token after) body c) c).0
  exchange-IsLoggedIn method before after body c v = record {
    has_base = v.has_base;
    has_room = v.has_room;
    has_token = v.has_token;
    signed =
        All-append (IsSigned base room token) c.requests _ v.signed
          ((rw (v.has_token, real) refl, before, after, rw (v.has_base, v.has_room) refl), tt);
  }

  joined-IsLoggedIn :
      (read : Value → Option String) (c : Client) (answer : Option Value)
      → IsLoggedIn base room token c
      → IsLoggedIn base room token (joined serve read (c, answer)).0
  joined-IsLoggedIn read c none v = v
  joined-IsLoggedIn read c (some value) v = elim (Option-cases (read value)) [
    | inl no_participant ↦ rw (no_participant, joined) v
    | inr (session, is) ↦
        rw (is, joined)
          (record {
            has_base = v.has_base;
            has_room = v.has_room;
            has_token = v.has_token;
            signed = v.signed;
          })
  ]

  perform-IsLoggedIn :
      (call : Call) (c : Client)
      → IsLoggedIn base room token c
      → IsLoggedIn base room token (perform serve call c)
  unfolding perform join_as_guest set_guest_name get_signaling_settings join_call leave_call
      enable_transcription disable_transcription ocs_post ocs_get ocs_delete
  perform-IsLoggedIn (joins read) c v =
      joined-IsLoggedIn read _ _
        (exchange-IsLoggedIn _ "v4/room/" "/participants/active?format=json" _ c v)
  perform-IsLoggedIn (names name) c v = exchange-IsLoggedIn _ "v1/guest/" "/name?format=json" _ c v
  perform-IsLoggedIn (settings readable) c v =
      exchange-IsLoggedIn _ "v3/signaling/settings?format=json&token=" "" _ c v
  perform-IsLoggedIn enters_call c v = exchange-IsLoggedIn _ "v4/call/" "?format=json" _ c v
  perform-IsLoggedIn leaves_call c v = exchange-IsLoggedIn _ "v4/call/" "?format=json" _ c v
  perform-IsLoggedIn (enables language) c v =
      exchange-IsLoggedIn _ "v1/live-transcription/" "?format=json" _ _
        (exchange-IsLoggedIn _ "v1/live-transcription/" "/language?format=json" _ c v)
  perform-IsLoggedIn disables c v =
      exchange-IsLoggedIn _ "v1/live-transcription/" "?format=json" _ c v

  perform_all-IsLoggedIn :
      (calls : List Call) (c : Client)
      → IsLoggedIn base room token c
      → IsLoggedIn base room token (perform_all serve calls c)
  unfolding perform_all
  perform_all-IsLoggedIn [] c v = v
  perform_all-IsLoggedIn (call ∷ calls) c v =
      perform_all-IsLoggedIn calls _ (perform-IsLoggedIn call c v)

-- A client that made no request yet and whose `Initialize` finds a token on the room's page:
-- whatever is called on it then, and whatever the server replies, every OCS request that it makes
-- has that token in its header and goes to the client's server, for the client's room.
pub initialize-IsLoggedIn :
    (serve : List Request → Request → Reply) (token : String) (csrf : Option (Option String))
    (calls : List Call) (c : Client)
    → is_empty token ≡ false
    → c.requests ≡ []
    → IsLoggedIn c.base_url c.room_token token
        (perform_all serve calls (initialize (some (some token)) csrf c).0)
unfolding initialize
initialize-IsLoggedIn serve token csrf calls c real fresh = rw real (
    perform_all-IsLoggedIn serve c.base_url c.room_token token real calls
      (record c { request_token = token })
      (record { has_base = refl; has_room = refl; has_token = refl; signed = rw fresh tt }))

-- A server that refuses everything, with an OCS response of another status than 200: joining a
-- call, naming the guest and enabling the transcription are errors, but leaving the call and
-- disabling the transcription are taken to have succeeded.
pub refusals :
    (serve : List Request → Request → Reply) (status : ℕ) (value : Value) (name language : String)
    (c : Client)
    → ((rs : List Request) (r : Request) → serve rs r ≡ parsed status value)
    → status ≢ 200
    → ((join_call serve c).1 ≡ false)
      × ((set_guest_name serve name c).1 ≡ false)
      × ((enable_transcription serve language c).1 ≡ false)
      × ((leave_call serve c).1 ≡ true)
      × ((disable_transcription serve c).1 ≡ true)
unfolding join_call set_guest_name enable_transcription leave_call disable_transcription ocs_post
    ocs_delete
refusals serve status value name language c refuses other =
    let refused : checked (parsed status value) ≡ none = ground arith in
    (
      rw (refuses, refused) refl,
      rw (refuses, refused) refl,
      rw (refuses, refused) refl,
      rw refuses refl,
      rw refuses refl,
    )
