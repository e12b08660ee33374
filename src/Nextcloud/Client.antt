-- ===== src/Nextcloud/Client.antt =====
-- pkg/nextcloud/ocs.go, behind the parsing of the room's URL. The server is a parameter: what it
-- replies to a request, given the requests before it. What the regular expression finds on a page,
-- and what encoding/json reads from data, come with the reply or are parameters.
use Prim.Native.String
use nc_kyutai_live_transcrip.Prelude.{
  Bool, List, Option, String, [], false, if◌then◌else◌, is_some, none, some, true, ℕ, ◌++◌, ◌==◌,
  ◌>>=◌, ◌∷◌,
}
use nc_kyutai_live_transcrip.Json.{
  Value, Double, bool, number, string, array, nil, Fields, field, end,
}
use nc_kyutai_live_transcrip.Modal.Client.{is_empty}

pub data Method : Type 0 where
  get post delete_method : Method

-- A request of the OCS interface: the header "requesttoken" is there or not.
pub record Request : Type 0 where
  pub method : Method
  pub url : String
  pub requesttoken : Option String
  pub body : Fields

-- What comes back: no response that can be read, one that is no OCS response, or one with its
-- status code and its data.
pub data Reply : Type 0 where
  unreadable unparsed : Reply
  parsed : ℕ → Value → Reply

-- `Client`; `requests` is the trace of its OCS requests, oldest first.
pub record Client : Type 0 where
  pub base_url : String
  pub room_token : String
  pub request_token : String
  pub session_id : String
  pub requests : List Request

-- `Initialize`: what the room's page and the token's endpoint give. `none` is a request that fails;
-- else the token that was found, if one was. `false` is an error.
unfoldable pub initialize : Option (Option String) → Option (Option String) → Client → Client × Bool
initialize none csrf c = (c, false)
initialize (some found) csrf c =
    let fallback : Client × Bool = elim csrf [
      | none ↦ (c, false)
      | some none ↦ (c, true)
      | some (some token) ↦ (if is_empty token then c else record c { request_token = token }, true)
    ] in
    elim found [
      | none ↦ fallback
      | some token ↦ if is_empty token then fallback else (record c { request_token = token }, true)
    ]

-- The request that `ocsPost`, `ocsGet` and `ocsDelete` make
abbrev pub request_of : Method → String → Fields → Client → Request
request_of method path body c = record {
  method = method;
  url = String.◌++◌ c.base_url path;
  requesttoken = if is_empty c.request_token then none else some c.request_token;
  body = body;
}

-- What `ocsPost` and `ocsGet` make of a reply: `none` is an error.
abbrev pub checked : Reply → Option Value
checked unreadable = none
checked unparsed = none
checked (parsed status value) = if status == 200 then some value else none

-- What `ocsDelete` makes of it.
abbrev pub unchecked : Reply → Option Value
unchecked unreadable = none
unchecked unparsed = none
unchecked (parsed status value) = some value

abbrev pub spreed : String → String → String → String
spreed before token after =
    String.◌++◌ "/ocs/v2.php/apps/spreed/api/" (String.◌++◌ before (String.◌++◌ token after))

module _ (serve : List Request → Request → Reply) where
  -- A request is made, and its reply is there.
  abbrev pub exchange : Request → Client → Client × Reply
  exchange r c = (record c { requests = c.requests ++ r ∷ [] }, serve c.requests r)

  unfoldable pub ocs_post : String → Fields → Client → Client × Option Value
  ocs_post path body c =
      let (c', reply) = exchange (request_of post path body c) c in (c', checked reply)

  unfoldable pub ocs_get : String → Client → Client × Option Value
  ocs_get path c = let (c', reply) = exchange (request_of get path end c) c in (c', checked reply)

  unfoldable pub ocs_delete : String → Client → Client × Option Value
  ocs_delete path c =
      let (c', reply) = exchange (request_of delete_method path end c) c in (c', unchecked reply)

  -- The session of the participant that joined, where the data is one.
  abbrev pub joined : (Value → Option String) → Client × Option Value → Client × Bool
  joined read (c, none) = (c, false)
  joined read (c, some value) = elim (read value) [
    | none ↦ (c, false)
    | some session ↦ (record c { session_id = session }, true)
  ]

  -- `JoinAsGuest`; `false` is an error.
  unfoldable pub join_as_guest : (Value → Option String) → Client → Client × Bool
  unfolding ocs_post
  join_as_guest read c = joined read (
      ocs_post (spreed "v4/room/" c.room_token "/participants/active?format=json")
        (field "force" (bool true) end) c)

  abbrev pub succeeded : Client × Option Value → Client × Bool
  succeeded (c, answer) = (c, is_some answer)

  -- `SetGuestName`
  unfoldable pub set_guest_name : String → Client → Client × Bool
  unfolding ocs_post
  set_guest_name name c = succeeded (
      ocs_post (spreed "v1/guest/" c.room_token "/name?format=json")
        (field "displayName" (string name) end) c)

  -- `GetSignalingSettings`, given which data is readable as settings.
  unfoldable pub get_signaling_settings : (Value → Bool) → Client → Client × Option Value
  unfolding ocs_get
  get_signaling_settings readable c =
      let (c', answer) =
        ocs_get (spreed "v3/signaling/settings?format=json&token=" c.room_token "") c in
      (c', answer >>= λ value. if readable value then some value else none)

  abbrev pub whole : ℕ → Double
  whole n = record { negative = false; whole = n; has_fraction = false }

  abbrev pub call_path : Client → String
  call_path c = spreed "v4/call/" c.room_token "?format=json"

  -- `JoinCall`
  unfoldable pub join_call : Client → Client × Bool
  unfolding ocs_post
  join_call c = succeeded (
      ocs_post (call_path c)
        (field "flags" (number (whole 3)) (
          field "silent" (bool false)
            (field "recordingConsent" (bool false) (field "silentFor" (array nil) end))))
        c)

  -- `LeaveCall`
  unfoldable pub leave_call : Client → Client × Bool
  unfolding ocs_delete
  leave_call c = succeeded (ocs_delete (call_path c) c)

  abbrev pub transcription_path : Client → String → String
  transcription_path c = spreed "v1/live-transcription/" c.room_token

  -- `EnableTranscription`: that the language cannot be set is only logged.
  unfoldable pub enable_transcription : String → Client → Client × Bool
  unfolding ocs_post
  enable_transcription language c =
      let lang = if is_empty language then "en" else language in
      let (c', answer) =
        ocs_post (transcription_path c "/language?format=json")
          (field "languageId" (string lang) end) c in
      succeeded (ocs_post (transcription_path c' "?format=json") end c')

  -- `DisableTranscription`
  unfoldable pub disable_transcription : Client → Client × Bool
  unfolding ocs_delete
  disable_transcription c = succeeded (ocs_delete (transcription_path c "?format=json") c)
