-- ===== src/Session/Reconnect/Tests.antt =====
-- A reconnection that fails twice, is refused once and then succeeds, and the properties at it.
use Prim.Native.String
use nc_kyutai_live_transcrip.Prelude.{Bool, List, String, [], false, refl, true, ◌∷◌, ◌≡◌}
use nc_kyutai_live_transcrip.Hpb.Client.{Config, new_client}
use nc_kyutai_live_transcrip.Session.Reconnect.{Attempt, rejoined, reconnect_hpb}
use nc_kyutai_live_transcrip.Session.Reconnect.Backoff.{reconnect_hpb-sleeps}
use nc_kyutai_live_transcrip.Session.Reconnect.Rejoins.{IsRejoined, reconnect_hpb-rejoins}

abbrev account : Config
account = record {
  hpb_url = "wss://hpb";
  backend_url = "https://cloud/";
  secret = "secret";
  signaling_secret = "signaling";
  ticket_url = "";
  ticket = "";
  token = "";
}

abbrev try : Bool → Bool → Attempt
try dialled join_written = record {
  room_left = false;
  dialled = dialled;
  hello_written = true;
  join_written = join_written;
  nonce = "n";
}

abbrev tries : List Attempt
tries = try false true ∷ try false true ∷ try true false ∷ try true true ∷ []

abbrev two_texts : String → String → String
two_texts a b = String.◌++◌ a b

reconnect_hpb-sleeps_example :
    (reconnect_hpb two_texts "t1" tries (new_client account)).slept ≡ 1 ∷ 2 ∷ 4 ∷ 4 ∷ []
reconnect_hpb-sleeps_example = reconnect_hpb-sleeps two_texts "t1" tries (new_client account)

reconnect_hpb-rejoins_example :
    let end = reconnect_hpb two_texts "t1" tries (new_client account) in
    (end.ending ≡ rejoined) × IsRejoined "t1" end.client
reconnect_hpb-rejoins_example =
    reconnect_hpb-rejoins two_texts "t1" tries (new_client account)
      (refl, (refl, (refl, (refl, _)))) refl
