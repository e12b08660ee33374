-- ===== src/Hpb/Reading.antt =====
-- What the client of pkg/hpb/client.go makes of the data that it reads.
use nc_kyutai_live_transcrip.Prelude.{
  All, Bool, List, String, [], ap, append-nil, arith, false, if◌then◌else◌, length, length-offer,
  refl, some, sym, take, take-offer, take_all, ℕ, ◌++◌, ◌∙◌, ◌∷◌, ◌≡◌, ◌≢◌, ◌≤◌,
}
use nc_kyutai_live_transcrip.Hpb.Types.{HpbMessage, hello, room, event, message, bye}
use nc_kyutai_live_transcrip.Hpb.Client.{
  Client, Outgoing, pong, Incoming, for_room, ping, welcome, reported_error, other, malformed,
  msg_cap, send_message, on_hello, route, behind_space, strip_signature, handle_message,
}

-- Data that is signed the way of the mock servers: a signature, a space and the JSON.
behind_space-signed :
    (sig json : List ℕ) → All (λ b. b ≢ 32) sig → behind_space (sig ++ 32 ∷ json) ≡ some json
behind_space-signed [] json h = refl
behind_space-signed (b ∷ bs) json (h, hs) = ground (arith, behind_space-signed bs json hs)

-- A pong changes neither the channel nor the session.
pong_quiet :
    (ok : Bool) (c : Client)
    → ((send_message ok pong c).0.msg_chan ≡ c.msg_chan)
      × ((send_message ok pong c).0.session_id ≡ c.session_id)
unfolding send_message
pong_quiet ok c = ground arith

module _ (decode : List ℕ → Incoming) where
  -- The data of several reads, while the room takes nothing from the channel and the client is not
  -- cancelled. Each comes with whether a pong to it is written.
  unfoldable pub handle_all : List (Bool × List ℕ) → Client → Client
  unfolding handle_message
  handle_all [] c = c
  handle_all ((ok, bytes) ∷ rest) c = handle_all rest (handle_message decode false ok bytes c)

  -- What data is for the room.
  abbrev pub room_part : Incoming → List HpbMessage
  room_part (for_room m) = m ∷ []
  room_part _ = []

  abbrev pub room_messages : List (Bool × List ℕ) → List HpbMessage
  room_messages [] = []
  room_messages ((ok, bytes) ∷ rest) =
      room_part (decode (strip_signature bytes)) ++ room_messages rest

  -- The session of the last hello response, or the given one.
  abbrev pub session_after : String → Incoming → String
  session_after s (for_room (hello m)) = m.session_id
  session_after s _ = s

  abbrev pub last_session : String → List (Bool × List ℕ) → String
  last_session s [] = s
  last_session s ((ok, bytes) ∷ rest) =
      last_session (session_after s (decode (strip_signature bytes))) rest

  abbrev pub pongs : Bool → Incoming → List Outgoing
  pongs ok ping = if ok then pong ∷ [] else []
  pongs ok _ = []

  route-queue :
      (ok : Bool) (x : Incoming) (c : Client) (rest : List HpbMessage)
      → length c.msg_chan ≤ msg_cap
      → (take msg_cap ((route false ok x c).msg_chan ++ rest)
          ≡ take msg_cap (c.msg_chan ++ (room_part x ++ rest)))
        × (length (route false ok x c).msg_chan ≤ msg_cap)
        × ((route false ok x c).session_id ≡ session_after c.session_id x)
  unfolding route on_hello send_message
  route-queue ok (for_room (hello m)) c rest h =
      (take-offer msg_cap c.msg_chan (hello m) rest h, length-offer msg_cap c.msg_chan _ h, refl)
  route-queue ok (for_room (room m)) c rest h =
      (take-offer msg_cap c.msg_chan (room m) rest h, length-offer msg_cap c.msg_chan _ h, refl)
  route-queue ok (for_room (event m)) c rest h =
      (take-offer msg_cap c.msg_chan (event m) rest h, length-offer msg_cap c.msg_chan _ h, refl)
  route-queue ok (for_room (message m)) c rest h =
      (take-offer msg_cap c.msg_chan (message m) rest h, length-offer msg_cap c.msg_chan _ h, refl)
  route-queue ok (for_room (bye m)) c rest h =
      (take-offer msg_cap c.msg_chan (bye m) rest h, length-offer msg_cap c.msg_chan _ h, refl)
  route-queue ok ping c rest h =
      let (queue, session) = pong_quiet ok c in
      (ap (λ q. take msg_cap (q ++ rest)) queue, rw queue h, session)
  route-queue ok welcome c rest h = (refl, h, refl)
  route-queue ok reported_error c rest h = (refl, h, refl)
  route-queue ok other c rest h = (refl, h, refl)
  route-queue ok malformed c rest h = (refl, h, refl)

  -- While the room takes nothing from the message channel and the client is not cancelled: after
  -- the given data, the channel holds the oldest hundred of what it held and of what came for the
  -- room, in order, so nothing is lost before it is full; and the client's session is that of the
  -- last hello response, also where the channel had no place for the response itself.
  pub handle_all-oldest :
      (reads : List (Bool × List ℕ)) (c : Client)
      → length c.msg_chan ≤ msg_cap
      → ((handle_all reads c).msg_chan ≡ take msg_cap (c.msg_chan ++ room_messages reads))
        × ((handle_all reads c).session_id ≡ last_session c.session_id reads)
  unfolding handle_all handle_message
  handle_all-oldest [] c h =
      (sym (ap (take msg_cap) (append-nil c.msg_chan) ∙ take_all msg_cap c.msg_chan h), refl)
  handle_all-oldest ((ok, bytes) ∷ rest) c h =
      let x = decode (strip_signature bytes) in
      let (queue, bounded, session) = route-queue ok x c (room_messages rest) h in
      let (kept, last) = handle_all-oldest rest (route false ok x c) bounded in
      (kept ∙ queue, last ∙ ap (λ s. last_session s rest) session)

  -- Signed data: where JSON that starts with a brace stands behind a signature and a space, and the
  -- signature is not empty, has no space and starts with neither a brace nor a bracket, it is
  -- handled as the JSON alone is.
  pub handle_message-signed :
      (quit ok : Bool) (b : ℕ) (sig json : List ℕ) (c : Client)
      → b ≢ 123
      → b ≢ 91
      → All (λ b. b ≢ 32) (b ∷ sig)
      → handle_message decode quit ok ((b ∷ sig) ++ 32 ∷ 123 ∷ json) c
        ≡ handle_message decode quit ok (123 ∷ json) c
  unfolding handle_message strip_signature
  handle_message-signed quit ok b sig json c brace bracket spaceless =
      let behind = behind_space-signed (b ∷ sig) (123 ∷ json) spaceless in
      ap (λ x. route quit ok (decode x) c) (stripped behind)
    where
      stripped :
          behind_space (b ∷ (sig ++ 32 ∷ 123 ∷ json)) ≡ some (123 ∷ json)
          → strip_signature (b ∷ (sig ++ 32 ∷ 123 ∷ json)) ≡ 123 ∷ json
      stripped behind = ground arith
