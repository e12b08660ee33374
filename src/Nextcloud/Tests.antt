-- ===== src/Nextcloud/Tests.antt =====
-- A guest's session with a server, and the client's properties at it.
use Prim.Native.String
use nc_kyutai_live_transcrip.Prelude.{
  List, Option, String, [], arith, false, if◌then◌else◌, none, refl, some, str_eq, true, ◌∷◌, ◌≡◌,
}
use nc_kyutai_live_transcrip.Json.{null}
use nc_kyutai_live_transcrip.Nextcloud.Client.{
  Client, Request, Reply, parsed, initialize, join_call, set_guest_name, enable_transcription,
  leave_call, disable_transcription,
}
use nc_kyutai_live_transcrip.Text.{join}
use nc_kyutai_live_transcrip.Nextcloud.Room.{ParsedUrl, new_client}
use nc_kyutai_live_transcrip.Nextcloud.Room.Token.{client_for, new_client-room}
use nc_kyutai_live_transcrip.Nextcloud.Requests.{
  Call, joins, enters_call, enables, leaves_call, perform_all, IsLoggedIn, initialize-IsLoggedIn,
  refusals,
}

abbrev guest : Client
guest = record {
  base_url = "https://cloud";
  room_token = "t1";
  request_token = "";
  session_id = "";
  requests = [];
}

abbrev agrees : List Request → Request → Reply
agrees rs r = parsed 200 null

abbrev refuses : List Request → Request → Reply
refuses rs r = parsed 403 null

abbrev visit : List Call
visit = joins (λ value. some "session") ∷ enters_call ∷ enables "" ∷ leaves_call ∷ []

initialize-IsLoggedIn_example :
    IsLoggedIn "https://cloud" "t1" "csrf1"
      (perform_all agrees visit (initialize (some (some "csrf1")) none guest).0)
initialize-IsLoggedIn_example = initialize-IsLoggedIn agrees "csrf1" none visit guest refl refl

refusals_example :
    ((join_call refuses guest).1 ≡ false)
    × ((set_guest_name refuses "bot" guest).1 ≡ false)
    × ((enable_transcription refuses "fr" guest).1 ≡ false)
    × ((leave_call refuses guest).1 ≡ true)
    × ((disable_transcription refuses guest).1 ≡ true)
refusals_example = refusals refuses 403 null "bot" "fr" guest (λ rs r. refl) (λ e. omega arith)

-- Two URLs and how they are parsed
abbrev parser : String → Option ParsedUrl
parser url =
    if str_eq url "https://cloud.example.com/index.php/call/t1/"
    then some (record {
      scheme = "https";
      host = "cloud.example.com";
      path = join "/index.php/call" (String.◌∷◌ "/" (join "t1" "/"));
    })
    else if str_eq url "https://cloud.example.com"
    then some (record { scheme = "https"; host = "cloud.example.com"; path = "" })
    else none

new_client-room_example :
    new_client parser "https://cloud.example.com/index.php/call/t1/"
    ≡ some (client_for (String.◌++◌ "https" (String.◌++◌ "://" "cloud.example.com")) "t1")
new_client-room_example =
    new_client-room parser "https://cloud.example.com/index.php/call/t1/" "https"
      "cloud.example.com" "/index.php/call" "t" "1" "/" refl refl refl refl
