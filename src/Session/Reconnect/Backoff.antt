-- ===== src/Session/Reconnect/Backoff.antt =====
-- How long `reconnectHPB` of pkg/session/manager.go sleeps.
use native.Mathlib.Numerals.{unary_clauses}
use nc_kyutai_live_transcrip.Prelude.{
  Bool, List, String, [], arith, if◌then◌else◌, min, not, refl, suc, true, ℕ, ◌&&◌, ◌*◌, ◌+◌, ◌^◌,
  ◌∷◌, ◌≡◌,
}
use nc_kyutai_live_transcrip.Hpb.Client.{Client, connect, join_room, send_message, send_hello}
use nc_kyutai_live_transcrip.Session.Reconnect.{
  Attempt, max_backoff, doubled, reconnect_from, reconnect_hpb,
}

abbrev pub is_connected : Attempt → Bool
is_connected a = a.dialled && a.hello_written

-- The sleeps after the given number of attempts that did not connect: two to that power, and thirty
-- seconds at most. An attempt that connects but does not join does not count.
abbrev pub sleeps : ℕ → List Attempt → List ℕ
sleeps failed [] = []
sleeps failed (a ∷ later) =
    let after_failure = sleeps (failed + 1) later in
    let after_refusal = sleeps failed later in
    if a.room_left
    then []
    else min (2 ^ failed) max_backoff
      ∷ (if not (is_connected a)
          then after_failure
          else if not a.join_written
          then after_refusal
          else [])

power : (k : ℕ) → 2 ^ (k + 1) ≡ 2 ^ k * 2
power k = let e : k + 1 ≡ suc k = omega arith in rw e (simp unary_clauses refl)

doubled-min : (k : ℕ) → doubled (min (2 ^ k) max_backoff) ≡ min (2 ^ (k + 1)) max_backoff
doubled-min k = ground (arith, power k)

module _ (hmac_sha256 : String → String → String) (room_token : String) where
  connect-up :
      (a : Attempt) (c : Client)
      → (connect hmac_sha256 a.dialled a.hello_written a.nonce c).1 ≡ is_connected a
  unfolding connect send_hello
  connect-up a c = ground arith

  -- `JoinRoom` on a client that just connected
  connect-joined :
      (a : Attempt) (c : Client)
      → is_connected a ≡ true
      → (join_room a.join_written room_token
          (connect hmac_sha256 a.dialled a.hello_written a.nonce c).0).1
        ≡ a.join_written
  unfolding connect send_hello join_room send_message
  connect-joined a c h = ground arith

  from-slept :
      (k : ℕ) (attempts : List Attempt) (c : Client)
      → (reconnect_from hmac_sha256 room_token (min (2 ^ k) max_backoff) attempts c).slept
        ≡ sleeps k attempts
  unfolding reconnect_from
  from-slept k [] c = refl
  from-slept k (a ∷ later) c =
      let failed =
        from-slept (k + 1) later (connect hmac_sha256 a.dialled a.hello_written a.nonce c).0 in
      let refused =
        from-slept k later
          (join_room a.join_written room_token
            (connect hmac_sha256 a.dialled a.hello_written a.nonce c).0).0 in
      ground (arith, failed, refused, doubled-min k, connect-up a c, connect-joined a c)

  -- The sleeps of the loop: it sleeps before each of its attempts, and before an attempt that
  -- follows `k` attempts that did not connect it sleeps two to the power of `k` seconds, but never
  -- more than thirty, and there may be any number of attempts. An attempt that connects and does
  -- not join leaves the next sleep as long.
  pub reconnect_hpb-sleeps :
      (attempts : List Attempt) (c : Client)
      → (reconnect_hpb hmac_sha256 room_token attempts c).slept ≡ sleeps 0 attempts
  unfolding reconnect_hpb
  reconnect_hpb-sleeps attempts c = from-slept 0 attempts c
