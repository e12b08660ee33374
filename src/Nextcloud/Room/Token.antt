-- ===== src/Nextcloud/Room/Token.antt =====
-- Which room's client `NewClient` of pkg/nextcloud/ocs.go makes.
use Prim.Native.Char.{Char}
use Prim.Native.String
use nc_kyutai_live_transcrip.Prelude.{Option, String, [], false, refl, some, true, ◌||◌, ◌≡◌}
use nc_kyutai_live_transcrip.Text.{join, trim, trim_right, split_first, last_part}
use nc_kyutai_live_transcrip.Text.Search.{has_slash}
use nc_kyutai_live_transcrip.Text.Slashes.{only_slashes, trim_left-slashes, last_part-path}
use nc_kyutai_live_transcrip.Modal.Client.{is_empty}
use nc_kyutai_live_transcrip.Nextcloud.Client.{Client}
use nc_kyutai_live_transcrip.Nextcloud.Room.{ParsedUrl, base_of, new_client}

-- The client for a room, before any request
abbrev pub client_for : String → String → Client
client_for base token = record {
  base_url = base;
  room_token = token;
  request_token = "";
  session_id = "";
  requests = [];
}

new_client-token :
    (parse : String → Option ParsedUrl) (room_url token : String) (u : ParsedUrl)
    → parse room_url ≡ some u
    → (is_empty u.scheme || is_empty u.host) ≡ false
    → last_part (split_first (trim u.path)) ≡ token
    → new_client parse room_url ≡ some (client_for (base_of u) token)
unfolding new_client
new_client-token parse room_url token u parsed there last =
    rw (parsed, new_client) (rw (there, new_client) (rw (last, new_client) refl))

-- A URL with a scheme and a host whose path ends with a token, and then slashes or not: the client
-- is for that token at that host, whatever stands in the path before it.
pub new_client-room :
    (parse : String → Option ParsedUrl) (room_url scheme host front : String) (c : Char)
    (s tail : String)
    → let token = String.◌∷◌ c s in
      parse room_url
        ≡ some (record {
          scheme = scheme;
          host = host;
          path = join front (String.◌∷◌ "/" (join token tail));
        })
      → (is_empty scheme || is_empty host) ≡ false
      → has_slash (String.◌∷◌ c s) ≡ false
      → only_slashes tail ≡ true
      → new_client parse room_url
        ≡ some (client_for (String.◌++◌ scheme (String.◌++◌ "://" host)) (String.◌∷◌ c s))
new_client-room parse room_url scheme host front c s tail parsed there h k =
    new_client-token parse room_url (String.◌∷◌ c s) _ parsed there
      (last_part-path c s tail h k front)

-- No error is reported where a URL names no room: a URL with a scheme and a host whose path is
-- empty or nothing but slashes makes a client for the empty token.
pub new_client-no_room :
    (parse : String → Option ParsedUrl) (room_url : String) (u : ParsedUrl)
    → parse room_url ≡ some u
    → (is_empty u.scheme || is_empty u.host) ≡ false
    → only_slashes u.path ≡ true
    → new_client parse room_url ≡ some (client_for (base_of u) "")
unfolding trim trim_right split_first last_part
new_client-no_room parse room_url u parsed there k =
    new_client-token parse room_url "" u parsed there (rw (trim_left-slashes u.path k) refl)
