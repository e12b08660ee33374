-- ===== src/Session/Link/Tests.antt =====
-- A room whose signaling client reads, breaks off and is connected again between the room's rounds.
use Prim.Native.String
use nc_kyutai_live_transcrip.Prelude.{
  LeavesOut, List, String, [], arith, false, if◌then◌else◌, refl, true, ℕ, ◌==◌, ◌∷◌, ◌≡◌,
}
use nc_kyutai_live_transcrip.Hpb.Types.{HpbMessage, hello, bye}
use nc_kyutai_live_transcrip.Hpb.Client.{
  Config, new_client, Incoming, for_room, ping, malformed, strip_signature,
}
use nc_kyutai_live_transcrip.Session.Manager.{new_room}
use nc_kyutai_live_transcrip.Session.RoomTests.{service, lab, alice, update_of}
use nc_kyutai_live_transcrip.Session.Reconnect.{Attempt}
use nc_kyutai_live_transcrip.Session.Link.{
  Link, LinkEvent, reads, fails, looks, takes, reconnects, link_run,
}
use nc_kyutai_live_transcrip.Session.Link.Ordered.{through, link_run-ordered, link_run_complete}

abbrev account : Config
account = record {
  hpb_url = "wss://hpb";
  backend_url = "https://cloud/";
  secret = "secret";
  signaling_secret = "signaling";
  ticket_url = "";
  ticket = "";
  token = "";
}

abbrev two_texts : String → String → String
two_texts a b = String.◌++◌ a b

abbrev greeting : HpbMessage
greeting = hello (record { session_id = "b1"; resume_id = "r1" })

abbrev farewell : HpbMessage
farewell = bye (record { session_id = "s1"; reason = "" })

-- A decoder of four texts
abbrev decoder : List ℕ → Incoming
decoder [] = malformed
decoder (b ∷ []) = malformed
decoder (b ∷ k ∷ ks) =
    if k == 1
    then for_room greeting
    else if k == 2
    then for_room (update_of (alice ∷ []))
    else if k == 3
    then for_room farewell
    else ping

abbrev attempt : Attempt
attempt = record {
  room_left = false;
  dialled = true;
  hello_written = true;
  join_written = true;
  nonce = "n";
}

abbrev start : Link
start = record { client = new_client account; room = new_room "t1" "en" [] service; handled = [] }

abbrev calls : List LinkEvent
calls =
    reads false true (123 ∷ 1 ∷ [])
    ∷ reads false true (123 ∷ 2 ∷ [])
    ∷ takes 5
    ∷ fails false "eof"
    ∷ takes 6
    ∷ reconnects (attempt ∷ [])
    ∷ looks
    ∷ reads false true (123 ∷ 3 ∷ [])
    ∷ []

link_run_complete_example :
    through (link_run lab two_texts decoder calls start)
    ≡ greeting ∷ update_of (alice ∷ []) ∷ farewell ∷ []
unfolding new_client strip_signature
link_run_complete_example = link_run_complete lab two_texts decoder calls start refl (omega arith)

link_run-ordered_example :
    LeavesOut
      (through (link_run lab two_texts decoder calls start))
      (greeting ∷ update_of (alice ∷ []) ∷ farewell ∷ [])
unfolding new_client strip_signature
link_run-ordered_example = link_run-ordered lab two_texts decoder calls start
