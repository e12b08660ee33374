-- ===== src/Session/Link/Queue.antt =====
-- What the events of a room's signaling client do to its queue.
use nc_kyutai_live_transcrip.Prelude.{
  Bool, Bool-cases, LeavesOut, LeavesOut-more, LeavesOut-offer, List, String, [], append-nil, arith,
  false, inl, inr, length, length-append, refl, sym, true, ℕ, ◌&&◌, ◌++◌, ◌∙◌, ◌∷◌, ◌≡◌, ◌≤◌,
}
use nc_kyutai_live_transcrip.Hpb.Types.{HpbMessage, hello, room, event, message, bye}
use nc_kyutai_live_transcrip.Hpb.Client.{
  Client, Outgoing, Incoming, for_room, ping, welcome, reported_error, other, malformed, msg_cap,
  pong, deliver, send_message, on_hello, route, connect, join_room, send_hello, next_msg_id,
}
use nc_kyutai_live_transcrip.Hpb.Reading.{room_part}
use nc_kyutai_live_transcrip.Session.Reconnect.{Attempt, doubled, reconnect_from}

-- How what arrives changes the queue: it is put behind, or left out.
deliver-queue :
    (quit : Bool) (m : HpbMessage) (c : Client)
    → LeavesOut (deliver quit m c).msg_chan (c.msg_chan ++ m ∷ [])
deliver-queue quit m c = elim (Bool-cases (quit && c.cancelled)) [
  | inl given_up ↦ rw given_up (LeavesOut-more c.msg_chan (m ∷ []))
  | inr sent ↦ rw sent (LeavesOut-offer msg_cap c.msg_chan m)
]

-- A client that was not cancelled, with a place in its queue
deliver-exact :
    (quit : Bool) (m : HpbMessage) (c : Client)
    → c.cancelled ≡ false
    → length (c.msg_chan ++ m ∷ []) ≤ msg_cap
    → (deliver quit m c).msg_chan ≡ c.msg_chan ++ m ∷ []
deliver-exact quit m c live place = ground (arith, length-append c.msg_chan (m ∷ []))

send_message-quiet :
    (ok : Bool) (m : Outgoing) (c : Client)
    → ((send_message ok m c).0.msg_chan ≡ c.msg_chan)
      × ((send_message ok m c).0.cancelled ≡ c.cancelled)
unfolding send_message
send_message-quiet ok m c = ground arith

deliver-cancelled :
    (quit : Bool) (m : HpbMessage) (c : Client) → (deliver quit m c).cancelled ≡ c.cancelled
deliver-cancelled quit m c = ground arith

-- The attempts to reconnect touch neither the queue nor the context.
module _ (hmac_sha256 : String → String → String) (token : String) where
  connect-quiet :
      (dialled ok : Bool) (nonce : String) (c : Client)
      → ((connect hmac_sha256 dialled ok nonce c).0.msg_chan ≡ c.msg_chan)
        × ((connect hmac_sha256 dialled ok nonce c).0.cancelled ≡ c.cancelled)
  unfolding connect send_hello
  connect-quiet false ok nonce c = (refl, refl)
  connect-quiet true false nonce c = (refl, refl)
  connect-quiet true true nonce c = (refl, refl)

  join_room-quiet :
      (ok : Bool) (c : Client)
      → ((join_room ok token c).0.msg_chan ≡ c.msg_chan)
        × ((join_room ok token c).0.cancelled ≡ c.cancelled)
  unfolding join_room
  join_room-quiet ok c = send_message-quiet ok _ (next_msg_id c)

  pub reconnect_from-quiet :
      (backoff : ℕ) (attempts : List Attempt) (c : Client)
      → ((reconnect_from hmac_sha256 token backoff attempts c).client.msg_chan ≡ c.msg_chan)
        × ((reconnect_from hmac_sha256 token backoff attempts c).client.cancelled ≡ c.cancelled)
  unfolding reconnect_from
  reconnect_from-quiet backoff [] c = (refl, refl)
  reconnect_from-quiet backoff (a ∷ later) c =
      let c' = (connect hmac_sha256 a.dialled a.hello_written a.nonce c).0 in
      let c'' = (join_room a.join_written token c').0 in
      ground (
        arith,
        connect-quiet a.dialled a.hello_written a.nonce c,
        join_room-quiet a.join_written c',
        reconnect_from-quiet (doubled backoff) later c',
        reconnect_from-quiet backoff later c'',
      )

module _ (decode : List ℕ → Incoming) where
  pub route-queue :
      (quit ok : Bool) (x : Incoming) (c : Client)
      → LeavesOut (route quit ok x c).msg_chan (c.msg_chan ++ room_part decode x)
        × ((route quit ok x c).cancelled ≡ c.cancelled)
  unfolding route on_hello
  route-queue quit ok (for_room (hello m)) c = (
    deliver-queue quit (hello m) (record c { resume_id = m.resume_id; session_id = m.session_id }),
    deliver-cancelled quit (hello m)
        (record c { resume_id = m.resume_id; session_id = m.session_id }),
  )
  route-queue quit ok (for_room (room m)) c =
      (deliver-queue quit (room m) c, deliver-cancelled quit (room m) c)
  route-queue quit ok (for_room (event m)) c =
      (deliver-queue quit (event m) c, deliver-cancelled quit (event m) c)
  route-queue quit ok (for_room (message m)) c =
      (deliver-queue quit (message m) c, deliver-cancelled quit (message m) c)
  route-queue quit ok (for_room (bye m)) c =
      (deliver-queue quit (bye m) c, deliver-cancelled quit (bye m) c)
  route-queue quit ok ping c =
      let (queue, live) = send_message-quiet ok pong c in
      (rw queue (LeavesOut-more c.msg_chan []), live)
  route-queue quit ok welcome c = (LeavesOut-more c.msg_chan [], refl)
  route-queue quit ok reported_error c = (LeavesOut-more c.msg_chan [], refl)
  route-queue quit ok other c = (LeavesOut-more c.msg_chan [], refl)
  route-queue quit ok malformed c = (LeavesOut-more c.msg_chan [], refl)

  pub route-exact :
      (quit ok : Bool) (x : Incoming) (c : Client)
      → c.cancelled ≡ false
      → length (c.msg_chan ++ room_part decode x) ≤ msg_cap
      → (route quit ok x c).msg_chan ≡ c.msg_chan ++ room_part decode x
  unfolding route on_hello
  route-exact quit ok (for_room (hello m)) c live place =
      deliver-exact quit (hello m) (record c { resume_id = m.resume_id; session_id = m.session_id })
        live place
  route-exact quit ok (for_room (room m)) c live place = deliver-exact quit (room m) c live place
  route-exact quit ok (for_room (event m)) c live place = deliver-exact quit (event m) c live place
  route-exact quit ok (for_room (message m)) c live place =
      deliver-exact quit (message m) c live place
  route-exact quit ok (for_room (bye m)) c live place = deliver-exact quit (bye m) c live place
  route-exact quit ok ping c live place =
      (send_message-quiet ok pong c).0 ∙ sym (append-nil c.msg_chan)
  route-exact quit ok welcome c live place = sym (append-nil c.msg_chan)
  route-exact quit ok reported_error c live place = sym (append-nil c.msg_chan)
  route-exact quit ok other c live place = sym (append-nil c.msg_chan)
  route-exact quit ok malformed c live place = sym (append-nil c.msg_chan)
