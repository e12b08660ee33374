-- ===== src/Hpb/Tests.antt =====
-- The signaling client on small inputs, and its properties at them.
use Prim.Native.String
use nc_kyutai_live_transcrip.Prelude.{
  List, String, [], arith, false, if◌then◌else◌, none, refl, some, true, ℕ, ◌==◌, ◌∷◌, ◌≡◌,
}
use nc_kyutai_live_transcrip.Hpb.Types.{hello, bye}
use nc_kyutai_live_transcrip.Hpb.Client.{
  Config, new_client, Incoming, for_room, ping, malformed, connect, end_write_loop, on_read_error,
  handle_message,
}
use nc_kyutai_live_transcrip.Hpb.Loops.{
  Callers, ClientEvent, taken_at, connects, joins, transcribes, gets_mutex, reads, fails,
  takes_message, looks, client_run,
}
use nc_kyutai_live_transcrip.Hpb.Loops.Ids.{ids}
use nc_kyutai_live_transcrip.Hpb.Loops.Sound.{IsSound, client_run-IsSound}
use nc_kyutai_live_transcrip.Text.{behind, before}
use nc_kyutai_live_transcrip.Hpb.Urls.{derived_backend_url, room_url}
use nc_kyutai_live_transcrip.Hpb.Urls.Origins.{
  ws_url, origin, derived_backend_url-origin, derived_backend_url-lost,
}

abbrev account : Config
account = record {
  hpb_url = "wss://hpb";
  backend_url = "";
  secret = "secret";
  signaling_secret = "signaling";
  ticket_url = "";
  ticket = "";
  token = "";
}

-- A decoder of three texts
abbrev decoder : List ℕ → Incoming
decoder [] = malformed
decoder (b ∷ []) = malformed
decoder (b ∷ k ∷ ks) =
    if k == 1
    then for_room (hello (record { session_id = "b1"; resume_id = "r1" }))
    else if k == 2
    then for_room (bye (record { session_id = "s1"; reason = "" }))
    else if k == 3
    then ping
    else malformed

abbrev joined : String → String → String
joined a b = String.◌++◌ a b

-- A transcript overtakes the room request, and the connection breaks and is replaced, with its
-- write loop looking in between.
abbrev life : List ClientEvent
life =
    connects true true "n1"
    ∷ joins "t1"
    ∷ transcribes "s2" "Hello" "en" "s1" true
    ∷ gets_mutex true 1
    ∷ gets_mutex true 0
    ∷ reads false true (123 ∷ 1 ∷ [])
    ∷ takes_message
    ∷ fails false "eof"
    ∷ looks
    ∷ connects false true "n2"
    ∷ connects true true "n3"
    ∷ joins "t1"
    ∷ []

abbrev at_rest : Callers
at_rest = record { client = new_client account; waiting = [] }

overtaken : ids (client_run joined decoder life at_rest).client.written ≡ 1 ∷ 3 ∷ 2 ∷ 4 ∷ []
unfolding client_run connect end_write_loop on_read_error handle_message taken_at new_client
overtaken = refl

client_run-IsSound_example : IsSound (client_run joined decoder life at_rest)
unfolding new_client
client_run-IsSound_example =
    client_run-IsSound joined decoder life at_rest
      (record { unique_ids = λ n. ground arith; messages = omega arith; errors = omega arith })

-- The documented configuration: the room's URL and the backend's
room_url_run :
    room_url "wss://cloud.example.com/standalone-signaling/spreed" "t1"
    ≡ some "https://cloud.example.com/api/v1/room/t1"
unfolding room_url before
room_url_run = refl

backend_url_run :
    derived_backend_url "wss://cloud.example.com/standalone-signaling/spreed"
    ≡ "https://cloud.example.com/"
unfolding derived_backend_url before
backend_url_run = refl

-- Any other path is kept.
other_path_run :
    derived_backend_url "wss://cloud.example.com/spreed" ≡ "https://cloud.example.com/spreed/"
unfolding derived_backend_url before
other_path_run = refl

-- A host of one character hides the slash behind it.
short_host_run : room_url "ws://h/spreed" "t1" ≡ some "http://h/spreed/api/v1/room/t1"
unfolding room_url before
short_host_run = refl

schemeless_run : room_url "hpb" "t1" ≡ none
unfolding room_url
schemeless_run = refl

derived_backend_url-origin_example :
    derived_backend_url (ws_url false "hpb:8081" (String.◌++◌ "/standalone-signaling" "/spreed"))
    ≡ String.◌++◌ (origin false "hpb:8081") "/"
unfolding behind
derived_backend_url-origin_example =
    derived_backend_url-origin false "hpb:8081" "/spreed" refl refl refl

derived_backend_url-lost_example :
    derived_backend_url
      (ws_url true (String.◌++◌ "standalone-signaling" ".example.com") "/standalone-signaling")
    ≡ "https:/"
derived_backend_url-lost_example =
    derived_backend_url-lost true ".example.com" "/standalone-signaling" refl (refl, omega arith)
