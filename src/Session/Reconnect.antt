-- ===== src/Session/Reconnect.antt =====
-- pkg/session/manager.go: `reconnectHPB`. Times are seconds. The outcomes of the attempts are an
-- argument, and the loop goes on while there are some: where they end, it is still in its loop.
pub mod Backoff
pub mod Rejoins
mod Tests
use nc_kyutai_live_transcrip.Prelude.{Bool, List, String, [], if◌then◌else◌, ltb, not, ℕ, ◌*◌, ◌∷◌}
use nc_kyutai_live_transcrip.Hpb.Client.{
  Client, Outgoing, room_join, connect, join_room, send_message, send_hello, started, next_msg_id,
  write, hello_auth,
}

-- How an attempt goes: whether the room is left before it, whether the dial, the write of the hello
-- and the write of the room request succeed, and the hello's nonce.
pub record Attempt : Type 0 where
  pub room_left : Bool
  pub dialled : Bool
  pub hello_written : Bool
  pub join_written : Bool
  pub nonce : String

-- How the loop ended, if it did.
pub data Ending : Type 0 where
  rejoined gave_up still_trying : Ending

pub record Outcome : Type 0 where
  pub ending : Ending
  pub client : Client
  pub slept : List ℕ

abbrev pub max_backoff : ℕ
max_backoff = 30

abbrev pub doubled : ℕ → ℕ
doubled backoff = if ltb max_backoff (backoff * 2) then max_backoff else backoff * 2

abbrev pub slept_first : ℕ → Outcome → Outcome
slept_first s o = record o { slept = s ∷ o.slept }

module _ (hmac_sha256 : String → String → String) (room_token : String) where
  -- The loop of `reconnectHPB`, from the given backoff on
  unfoldable pub reconnect_from : ℕ → List Attempt → Client → Outcome
  reconnect_from backoff [] c = record { ending = still_trying; client = c; slept = [] }
  reconnect_from backoff (a ∷ later) c =
      let (c', up) = connect hmac_sha256 a.dialled a.hello_written a.nonce c in
      let (c'', joined) = join_room a.join_written room_token c' in
      let down = reconnect_from (doubled backoff) later c' in
      let unjoined = reconnect_from backoff later c'' in
      if a.room_left
      then record { ending = gave_up; client = c; slept = [] }
      else if not up
      then slept_first backoff down
      else if not joined
      then slept_first backoff unjoined
      else record { ending = rejoined; client = c''; slept = backoff ∷ [] }

  -- `reconnectHPB`
  unfoldable pub reconnect_hpb : List Attempt → Client → Outcome
  unfolding reconnect_from
  reconnect_hpb attempts c = reconnect_from 1 attempts c
