-- ===== src/Session/Reconnect/Rejoins.antt =====
-- What `reconnectHPB` of pkg/session/manager.go reaches.
use nc_kyutai_live_transcrip.Prelude.{
  All, Bool, Bool-cases, List, String, [], append_assoc, arith, false, inl, inr, refl, true, ℕ,
  ◌&&◌, ◌++◌, ◌+◌, ◌||◌, ◌∷◌, ◌≡◌,
}
use nc_kyutai_live_transcrip.Hpb.Client.{
  Client, Auth, Outgoing, connect, join_room, send_message, send_hello, hello_auth, hello_request,
  room_join,
}
use nc_kyutai_live_transcrip.Session.Reconnect.{
  Attempt, rejoined, doubled, reconnect_from, reconnect_hpb,
}

-- Nothing goes wrong in the attempt.
abbrev pub succeeds : Attempt → Bool
succeeds a = a.dialled && (a.hello_written && a.join_written)

abbrev pub some_succeeds : List Attempt → Bool
some_succeeds [] = false
some_succeeds (a ∷ later) = succeeds a || some_succeeds later

abbrev pub AllStay : List Attempt → Type 0
AllStay = All (λ a. a.room_left ≡ false)

-- The client is connected, and what it wrote last is a hello and the request to join the room.
abbrev pub IsRejoined : String → Client → Type 0
IsRejoined token c =
    (c.has_conn ≡ true)
    × (before : List Outgoing) × (n : ℕ) × (auth : Auth) × (c.written
        ≡ before ++ hello_request n auth ∷ room_join (n + 1) token ∷ [])

module _ (hmac_sha256 : String → String → String) (room_token : String) where
  attempt-IsRejoined :
      (dialled hello join : Bool) (nonce : String) (c : Client)
      → (dialled && (hello && join)) ≡ true
      → IsRejoined room_token
          (join_room join room_token (connect hmac_sha256 dialled hello nonce c).0).0
  unfolding connect send_hello join_room send_message
  attempt-IsRejoined true true true nonce c h = (
    refl,
    c.written,
    c.msg_id + 1,
    hello_auth hmac_sha256 nonce c.config,
    append_assoc c.written _ _,
  )
  attempt-IsRejoined true true false nonce c h = absurd (cc h)
  attempt-IsRejoined true false join nonce c h = absurd (cc h)
  attempt-IsRejoined false hello join nonce c h = absurd (cc h)

  -- An attempt that succeeds is seen to, and one that does not is not.
  attempt-seen :
      (a : Attempt) (c : Client)
      → let (c', up) = connect hmac_sha256 a.dialled a.hello_written a.nonce c in
        (up && (join_room a.join_written room_token c').1) ≡ succeeds a
  unfolding connect send_hello join_room send_message
  attempt-seen a c = ground arith

  -- Whether it fails by its dial or its join, an attempt leaves the rest to the next ones.
  from-rejoins :
      (backoff : ℕ) (attempts : List Attempt) (c : Client)
      → AllStay attempts
      → some_succeeds attempts ≡ true
      → ((reconnect_from hmac_sha256 room_token backoff attempts c).ending ≡ rejoined)
        × IsRejoined room_token (reconnect_from hmac_sha256 room_token backoff attempts c).client
  unfolding reconnect_from
  from-rejoins backoff [] c stay h = absurd (cc h)
  from-rejoins backoff (a ∷ later) c (here, stay) h =
      let up = connect hmac_sha256 a.dialled a.hello_written a.nonce c in
      let joined = join_room a.join_written room_token up.0 in
      elim (Bool-cases up.1) [
        | inr down ↦
            let later_on =
              from-rejoins (doubled backoff) later up.0 stay (ground (arith, attempt-seen a c)) in
            rw (here, down, reconnect_from) later_on
        | inl is_up ↦ elim (Bool-cases joined.1) [
          | inr refused ↦
              let later_on =
                from-rejoins backoff later joined.0 stay (ground (arith, attempt-seen a c)) in
              rw (here, is_up, reconnect_from) (rw (refused, reconnect_from) later_on)
          | inl is_in ↦
              let all_well : succeeds a ≡ true = ground (arith, attempt-seen a c) in
              rw (here, is_up, reconnect_from)
                (rw (is_in, reconnect_from)
                  (
                    refl,
                    attempt-IsRejoined a.dialled a.hello_written a.join_written a.nonce c all_well,
                  ))
        ]
      ]

  -- The loop ends well: if the room is not left meanwhile and some attempt succeeds, then the loop
  -- ends, the client is connected, and what it wrote last is a hello and then the request to join
  -- the room, whatever failed in the attempts before, of which there may be any number.
  pub reconnect_hpb-rejoins :
      (attempts : List Attempt) (c : Client)
      → AllStay attempts
      → some_succeeds attempts ≡ true
      → ((reconnect_hpb hmac_sha256 room_token attempts c).ending ≡ rejoined)
        × IsRejoined room_token (reconnect_hpb hmac_sha256 room_token attempts c).client
  unfolding reconnect_hpb
  reconnect_hpb-rejoins attempts c = from-rejoins 1 attempts c
