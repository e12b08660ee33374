-- ===== src/Hpb/Urls/Origins.antt =====
-- What the URLs that pkg/hpb/client.go derives are, for a WebSocket URL given by its parts.
use Prim.Native.Char.{Char}
use Prim.Native.String
use nc_kyutai_live_transcrip.Prelude.{
  Bool, String, ap, arith, false, if◌then◌else◌, none, refl, some, sym, true, ◌∙◌, ◌≡◌,
}
use nc_kyutai_live_transcrip.Text.{
  is_nil, behind, join, replace_first, before, slice_to, ends_with_slash, trim_right,
}
use nc_kyutai_live_transcrip.Text.Search.{
  append-eq-join, has_slash, IsPath, Absent-ws, Absent-wss, replace_first-host, Follows,
  before-host, before-none, behind-none, before_at_path, behind-join, replace_first-IsPath,
  IsPath-Follows, join-nil,
}
use nc_kyutai_live_transcrip.Text.Slashes.{
  ends_with_slash-no_slash, ends_with_slash-join, trim_right_lem,
}
use nc_kyutai_live_transcrip.Hpb.Urls.{
  http_url, backend_of, derived_backend_url, room_url, room_url_of, strip_path,
}

-- A WebSocket URL, with or without TLS, from its host and what follows it
abbrev pub ws_url : Bool → String → String → String
ws_url tls host path = String.◌++◌ (if tls then "wss://" else "ws://") (String.◌++◌ host path)

abbrev pub origin : Bool → String → String
origin tls host = String.◌++◌ (if tls then "https://" else "http://") host

-- What becomes of the path where the scheme is replaced
abbrev moved : Bool → String → String
moved true path = replace_first "ws://" "http://" path
moved false path = replace_first "wss://" "https://" path

abbrev scheme : Bool → String
scheme tls = if tls then "https://" else "http://"

http_url-ws_url :
    (tls : Bool) (host path : String)
    → has_slash host ≡ false
    → IsPath path
    → http_url (ws_url tls host path) ≡ join (scheme tls) (join host (moved tls path))
unfolding http_url replace_first behind
http_url-ws_url true host path h w = rw (append-eq-join host path) (
    rw (append-eq-join "wss://" (join host path))
      (ap (join "https://") (replace_first-host "ws://" "http://" host path (Absent-ws path w) h)))
http_url-ws_url false host path h w = rw (append-eq-join host path) (
    rw (append-eq-join "ws://" (join host path))
      (rw (replace_first-host "wss://" "https://" host path (Absent-wss path w) h) refl))

-- What is left of the path starts with a slash too.
moved-Follows : (tls : Bool) (path : String) → IsPath path → Follows (moved tls path)
moved-Follows true path w =
    IsPath-Follows _
      (replace_first-IsPath "w" "h" "s://" "ttp://" path (omega arith) (omega arith) w)
moved-Follows false path w =
    IsPath-Follows _
      (replace_first-IsPath "w" "h" "ss://" "ttps://" path (omega arith) (omega arith) w)

-- The host has a character, and where TLS is not used, two.
abbrev pub long_enough : Bool → String → Bool
long_enough tls String.[] = false
long_enough tls (String.◌∷◌ c String.[]) = tls
long_enough tls (String.◌∷◌ c (String.◌∷◌ d s)) = true

-- What stands before the path is the first eight characters and the host behind them.
strip_path-join :
    (front host tail : String)
    → slice_to 8 (join front (join host tail)) ≡ front
    → has_slash host ≡ false
    → is_nil host ≡ false
    → Follows tail
    → strip_path (join front (join host tail)) (join host tail) ≡ join front host
strip_path-join front host String.[] e h n f =
    rw (join-nil host) (rw (before-none host h, strip_path) refl)
strip_path-join front host (String.◌∷◌ d t) e h n f =
    rw (before-host host t d h f, strip_path) (rw n (rw e refl))

-- A host at the end is left, and the path of the interface is put behind.
trimmed :
    (tls : Bool) (c : Char) (s after : String)
    → has_slash (String.◌∷◌ c s) ≡ false
    → String.◌++◌ (trim_right (join (scheme tls) (String.◌∷◌ c s))) after
      ≡ String.◌++◌ (origin tls (String.◌∷◌ c s)) after
trimmed tls c s after h =
    ap (λ x. String.◌++◌ x after)
      (trim_right_lem _
          (ends_with_slash-join (scheme tls) c s ∙ ends_with_slash-no_slash (String.◌∷◌ c s) h)
        ∙ sym (append-eq-join (scheme tls) (String.◌∷◌ c s)))

room_url_of-origin :
    (tls : Bool) (host tail token : String)
    → has_slash host ≡ false
    → long_enough tls host ≡ true
    → Follows tail
    → room_url_of (join (scheme tls) (join host tail)) token
      ≡ some (String.◌++◌ (origin tls host) (String.◌++◌ "/api/v1/room/" token))
unfolding room_url_of
room_url_of-origin true (String.◌∷◌ c s) tail token h l f =
    rw (strip_path-join "https://" (String.◌∷◌ c s) tail refl h refl f)
      (ap some (trimmed true c s (String.◌++◌ "/api/v1/room/" token) h))
room_url_of-origin false (String.◌∷◌ c (String.◌∷◌ d s)) tail token h l f =
    rw
      (strip_path-join (join "http://" (String.◌∷◌ c "")) (String.◌∷◌ d s) tail refl (ground arith)
        refl f)
      (ap some (trimmed false c (String.◌∷◌ d s) (String.◌++◌ "/api/v1/room/" token) h))
room_url_of-origin tls String.[] tail token h l f = cc
room_url_of-origin false (String.◌∷◌ c String.[]) tail token h l f = cc

-- The room's URL stands below the origin of the signaling server, whatever path that one has.
pub room_url-origin :
    (tls : Bool) (host path token : String)
    → has_slash host ≡ false
    → long_enough tls host ≡ true
    → IsPath path
    → room_url (ws_url tls host path) token
      ≡ some (String.◌++◌ (origin tls host) (String.◌++◌ "/api/v1/room/" token))
unfolding room_url
room_url-origin tls host path token h l w =
    rw (http_url-ws_url tls host path h w)
      (room_url_of-origin tls host (moved tls path) token h l (moved-Follows tls path w))

-- The path of a standalone server is found behind the scheme.
before-scheme :
    (tls : Bool) (s front : String)
    → behind "standalone-signaling" s ≡ none
    → before "/standalone-signaling" s ≡ some front
    → before "/standalone-signaling" (join (scheme tls) s) ≡ some (join (scheme tls) front)
unfolding before
before-scheme true s front n found = rw n (rw found refl)
before-scheme false s front n found = rw n (rw found refl)

moved-standalone :
    (tls : Bool) (rest : String)
    → moved tls (join "/standalone-signaling" rest) ≡ join "/standalone-signaling" (moved tls rest)
unfolding replace_first
moved-standalone true rest = refl
moved-standalone false rest = refl

is_nil-scheme : (tls : Bool) (s : String) → is_nil (join (scheme tls) s) ≡ false
is_nil-scheme true s = refl
is_nil-scheme false s = refl

-- What stands before the path of a standalone server gets a slash.
backend_of-found :
    (url front : String)
    → before "/standalone-signaling" url ≡ some front
    → is_nil front ≡ false
    → ends_with_slash front ≡ false
    → backend_of url ≡ String.◌++◌ front "/"
unfolding backend_of
backend_of-found url front found n e = rw found (rw n (rw e refl))

-- The backend URL that is derived from a WebSocket URL whose path starts with
-- "/standalone-signaling" is the origin, with a slash behind it, where the host has no slash, is
-- not empty and does not start with "standalone-signaling".
pub derived_backend_url-origin :
    (tls : Bool) (host rest : String)
    → has_slash host ≡ false
    → is_nil host ≡ false
    → behind "standalone-signaling" host ≡ none
    → derived_backend_url (ws_url tls host (String.◌++◌ "/standalone-signaling" rest))
      ≡ String.◌++◌ (origin tls host) "/"
unfolding derived_backend_url
derived_backend_url-origin tls (String.◌∷◌ c s) rest h e n =
    let host = String.◌∷◌ c s in
    let path = join "/standalone-signaling" rest in
    let url : String =
      join (scheme tls) (join host (join "/standalone-signaling" (moved tls rest))) in
    let found =
      before-scheme tls (join host (join "/standalone-signaling" (moved tls rest))) host
        (behind-none "standalone-signaling" host _ "/" refl refl n)
        (before_at_path host "standalone-signaling" (moved tls rest) h) in
    rw (append-eq-join "/standalone-signaling" rest) (
      rw (http_url-ws_url tls host path h (refl, omega arith)) (
        rw (moved-standalone tls rest) (
          backend_of-found url (join (scheme tls) host) found (is_nil-scheme tls host)
            (ends_with_slash-join (scheme tls) c s ∙ ends_with_slash-no_slash host h)
          ∙ ap (λ x. String.◌++◌ x "/") (sym (append-eq-join (scheme tls) host)))))
derived_backend_url-origin tls String.[] rest h e n = cc

-- The name of the path is found within the host as well, behind the second slash of the scheme.
before_in_host :
    (tls : Bool) (s rest : String)
    → behind "standalone-signaling" s ≡ some rest
    → before "/standalone-signaling" (join (scheme tls) s)
      ≡ some (if tls then "https:/" else "http:/")
unfolding before
before_in_host true s rest e = rw e refl
before_in_host false s rest e = rw e refl

broken-backend_of :
    (tls : Bool) (url : String)
    → before "/standalone-signaling" url ≡ some (if tls then "https:/" else "http:/")
    → backend_of url ≡ (if tls then "https:/" else "http:/")
unfolding backend_of
broken-backend_of true url e = rw e refl
broken-backend_of false url e = rw e refl

-- Where the name of a server's host starts with "standalone-signaling", the backend URL that is
-- derived is a scheme and one slash, whatever the path.
pub derived_backend_url-lost :
    (tls : Bool) (more path : String)
    → has_slash more ≡ false
    → IsPath path
    → derived_backend_url (ws_url tls (String.◌++◌ "standalone-signaling" more) path)
      ≡ (if tls then "https:/" else "http:/")
unfolding derived_backend_url
derived_backend_url-lost tls more path h w =
    let host = join "standalone-signaling" more in
    let url = join (scheme tls) (join host (moved tls path)) in
    rw (append-eq-join "standalone-signaling" more) (
      rw (http_url-ws_url tls host path h w) (
        broken-backend_of tls url (
          before_in_host tls (join host (moved tls path)) (join more (moved tls path))
            (behind-join "standalone-signaling" (join more (moved tls path))))))
