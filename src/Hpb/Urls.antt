-- ===== src/Hpb/Urls.antt =====
-- pkg/hpb/client.go: the URLs that `NewClient` and `SendRoomMessage` derive from the one of the
-- signaling server.
pub mod Origins
use Prim.Native.String
use nc_kyutai_live_transcrip.Prelude.{Option, String, if◌then◌else◌, none, some, ◌++◌}
use nc_kyutai_live_transcrip.Text.{
  is_nil, behind, join, replace_first, before, slice_from, slice_to, ends_with_slash, trim_right,
}

-- A WebSocket URL with the scheme of HTTP
unfoldable pub http_url : String → String
unfolding replace_first
http_url url = replace_first "ws://" "http://" (replace_first "wss://" "https://" url)

-- `if idx := strings.Index(…); idx > 0 { url = url[:idx] }`, for what stands before the index
abbrev pub cut_at : Option String → String → String
cut_at none url = url
cut_at (some front) url = if is_nil front then url else front

abbrev pub with_slash : String → String
with_slash url = if ends_with_slash url then url else String.◌++◌ url "/"

-- The backend URL that `NewClient` makes of it
unfoldable pub backend_of : String → String
unfolding ends_with_slash
backend_of url = with_slash (cut_at (before "/standalone-signaling" url) url)

-- The backend URL that `NewClient` derives where none is given
unfoldable pub derived_backend_url : String → String
unfolding http_url backend_of
derived_backend_url hpb_url = backend_of (http_url hpb_url)

-- Where `SendRoomMessage` cuts a URL: at the first slash behind its eighth byte
abbrev pub strip_path : String → String → String
strip_path url rest = elim (before "/" rest) [
  | none ↦ url
  | some host ↦ if is_nil host then url else join (slice_to 8 url) host
]

-- The URL that `SendRoomMessage` posts to, once the scheme is replaced
unfoldable pub room_url_of : String → String → Option String
unfolding slice_from slice_to trim_right
room_url_of api_url token = elim (slice_from 8 api_url) [
  | none ↦ none
  | some rest ↦
      some (String.◌++◌ (trim_right (strip_path api_url rest)) (String.◌++◌ "/api/v1/room/" token))
]

-- That URL, from the one of the signaling server; `none` is the panic of `apiURL[8:]`.
unfoldable pub room_url : String → String → Option String
unfolding http_url room_url_of
room_url hpb_url token = room_url_of (http_url hpb_url) token
