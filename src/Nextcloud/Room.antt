-- ===== src/Nextcloud/Room.antt =====
-- pkg/nextcloud/ocs.go: the client that `NewClient` makes for a room's URL. `url.Parse` of net/url
-- is a parameter.
pub mod Token
use Prim.Native.String
use nc_kyutai_live_transcrip.Prelude.{
  Option, String, [], if◌then◌else◌, none, some, ◌++◌, ◌>>=◌, ◌||◌,
}
use nc_kyutai_live_transcrip.Text.{trim, split_first, last_part}
use nc_kyutai_live_transcrip.Modal.Client.{is_empty}
use nc_kyutai_live_transcrip.Nextcloud.Client.{Client}

-- `url.URL`, with the fields that are used
pub record ParsedUrl : Type 0 where
  pub scheme : String
  pub host : String
  pub path : String

abbrev pub base_of : ParsedUrl → String
base_of u = String.◌++◌ u.scheme (String.◌++◌ "://" u.host)

-- `parseRoomURL`: the base URL and the token, or `none` for an error. A text has at least one part,
-- so there is no branch for a path without one.
unfoldable pub parse_room_url : (String → Option ParsedUrl) → String → Option (String × String)
unfolding trim split_first last_part
parse_room_url parse room_url = parse room_url >>= λ u.
    if is_empty u.scheme || is_empty u.host
    then none
    else some (base_of u, last_part (split_first (trim u.path)))

-- `NewClient`; the cookie jar is made without fail.
unfoldable pub new_client : (String → Option ParsedUrl) → String → Option Client
unfolding parse_room_url
new_client parse room_url = parse_room_url parse room_url >>= λ (base, token). some (record {
  base_url = base;
  room_token = token;
  request_token = "";
  session_id = "";
  requests = [];
})
