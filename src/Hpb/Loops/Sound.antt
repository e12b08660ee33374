-- ===== src/Hpb/Loops/Sound.antt =====
-- The ids and the channels over a run of the client of pkg/hpb/client.go.
use nc_kyutai_live_transcrip.Prelude.{
  Bool, Bool-cases, List, String, [], ap, arith, false, if◌then◌else◌, inl, inr, leb, length,
  length-offer, refl, true, ℕ, ◌&&◌, ◌++◌, ◌+◌, ◌||◌, ◌∷◌, ◌≡◌, ◌≤◌,
}
use nc_kyutai_live_transcrip.Hpb.Types.{HpbMessage, hello, room, event, message, bye}
use nc_kyutai_live_transcrip.Hpb.Client.{
  Client, Outgoing, hello_request, pong, signaling, Incoming, for_room, ping, welcome,
  reported_error, other, malformed, msg_cap, err_cap, write, next_msg_id, send_message, deliver,
  on_hello, route, strip_signature, handle_message, on_read_error, hello_auth, send_hello, connect,
  end_write_loop,
}
use nc_kyutai_live_transcrip.Hpb.Loops.Ids.{ids, times, uses, uses-append, uses-cons, uses-taken_at}
use nc_kyutai_live_transcrip.Hpb.Loops.{
  Callers, ClientEvent, connects, joins, transcribes, gets_mutex, sends, reads, fails,
  takes_message, takes_error, looks, rest_of, client_step, client_run,
}

-- An id up to the counter stands once at most among what was written and what waits, and no other
-- id stands there; and the channels keep their capacities.
pub record Sound (waiting : List Outgoing) (c : Client) : Type 0 where
  pub unique_ids : (n : ℕ) → uses n c.written + uses n waiting ≤ (if leb n c.msg_id then 1 else 0)
  pub messages : length c.msg_chan ≤ msg_cap
  pub errors : length c.err_chan ≤ err_cap

abbrev pub IsSound : Callers → Type 0
IsSound s = Sound s.waiting s.client

-- A new id is drawn.
drawn-Sound :
    (waiting : List Outgoing) (m : Outgoing) (c : Client)
    → Sound waiting c
    → ids (m ∷ []) ≡ (c.msg_id + 1) ∷ []
    → Sound (waiting ++ m ∷ []) (next_msg_id c)
drawn-Sound waiting m c v e = record {
  unique_ids = λ n. ground (arith, v.unique_ids n, uses-append n waiting (m ∷ []), ap (times n) e);
  messages = v.messages;
  errors = v.errors;
}

-- What waits is written, or its write fails.
write-Sound :
    (waiting : List Outgoing) (ok : Bool) (m : Outgoing) (c : Client)
    → Sound (m ∷ waiting) c
    → Sound waiting (write ok m c).0
write-Sound waiting false m c v = record {
  unique_ids = λ n. ground (arith, v.unique_ids n, uses-cons n m waiting);
  messages = v.messages;
  errors = v.errors;
}
write-Sound waiting true m c v = record {
  unique_ids =
      λ n. ground (arith, v.unique_ids n, uses-cons n m waiting, uses-append n c.written (m ∷ []));
  messages = v.messages;
  errors = v.errors;
}

send_message-Sound :
    (waiting : List Outgoing) (ok : Bool) (m : Outgoing) (c : Client)
    → Sound (m ∷ waiting) c
    → Sound waiting (send_message ok m c).0
unfolding send_message
send_message-Sound waiting ok m c v =
    elim c.has_conn as (λ b. Sound waiting (if b then write ok m c else (c, false)).0) [
      | true ↦ write-Sound waiting ok m c v
      | false ↦ write-Sound waiting false m c v
    ]

-- A message without an id
plain-Sound :
    (waiting : List Outgoing) (m : Outgoing) (c : Client)
    → Sound waiting c
    → ids (m ∷ []) ≡ []
    → Sound (m ∷ waiting) c
plain-Sound waiting m c v e = record {
  unique_ids = λ n. ground (arith, v.unique_ids n, uses-cons n m waiting, ap (times n) e);
  messages = v.messages;
  errors = v.errors;
}

deliver-Sound :
    (waiting : List Outgoing) (quit : Bool) (m : HpbMessage) (c : Client)
    → Sound waiting c
    → Sound waiting (deliver quit m c)
deliver-Sound waiting quit m c v = elim (Bool-cases (quit && c.cancelled)) [
  | inl given_up ↦ rw given_up v
  | inr sent ↦ rw sent (record {
    unique_ids = v.unique_ids;
    messages = length-offer msg_cap c.msg_chan m v.messages;
    errors = v.errors;
  })
]

route-Sound :
    (waiting : List Outgoing) (quit ok : Bool) (x : Incoming) (c : Client)
    → Sound waiting c
    → Sound waiting (route quit ok x c)
unfolding route on_hello
route-Sound w quit ok (for_room (hello m)) c v =
    deliver-Sound w quit (hello m) (record c { resume_id = m.resume_id; session_id = m.session_id })
      (record { unique_ids = v.unique_ids; messages = v.messages; errors = v.errors })
route-Sound w quit ok (for_room (room m)) c v = deliver-Sound w quit (room m) c v
route-Sound w quit ok (for_room (event m)) c v = deliver-Sound w quit (event m) c v
route-Sound w quit ok (for_room (message m)) c v = deliver-Sound w quit (message m) c v
route-Sound w quit ok (for_room (bye m)) c v = deliver-Sound w quit (bye m) c v
route-Sound w quit ok ping c v = send_message-Sound w ok pong c (plain-Sound w pong c v refl)
route-Sound w quit ok welcome c v = v
route-Sound w quit ok reported_error c v = v
route-Sound w quit ok other c v = v
route-Sound w quit ok malformed c v = v

on_read_error-Sound :
    (waiting : List Outgoing) (of_closed : Bool) (e : String) (c : Client)
    → Sound waiting c
    → Sound waiting (on_read_error of_closed e c)
unfolding on_read_error
on_read_error-Sound w true e c v = record {
  unique_ids = v.unique_ids;
  messages = v.messages;
  errors = v.errors;
}
on_read_error-Sound w false e c v = record {
  unique_ids = v.unique_ids;
  messages = v.messages;
  errors = length-offer err_cap c.err_chan e v.errors;
}

length-rest : {A : Type 0} (n : ℕ) (xs : List A) → length xs ≤ n → length (rest_of xs) ≤ n
length-rest n [] h = h
length-rest n (x ∷ xs) h = omega arith

end_write_loop-Sound :
    (waiting : List Outgoing) (c : Client) → Sound waiting c → Sound waiting (end_write_loop c)
unfolding end_write_loop
end_write_loop-Sound w c v = elim (Bool-cases (c.cancelled || c.closed)) [
  | inl ends ↦
      rw ends (record { unique_ids = v.unique_ids; messages = v.messages; errors = v.errors })
  | inr stays ↦ rw stays v
]

module _ (hmac_sha256 : String → String → String) (decode : List ℕ → Incoming) where
  connect-Sound :
      (waiting : List Outgoing) (dialled ok : Bool) (nonce : String) (c : Client)
      → Sound waiting c
      → Sound waiting (connect hmac_sha256 dialled ok nonce c).0
  unfolding connect send_hello
  connect-Sound w false ok nonce c v = record {
    unique_ids = v.unique_ids;
    messages = v.messages;
    errors = v.errors;
  }
  connect-Sound w true false nonce c v = record {
    unique_ids = λ n. ground (arith, v.unique_ids n);
    messages = v.messages;
    errors = v.errors;
  }
  connect-Sound w true true nonce c v =
      let hello = hello_request (c.msg_id + 1) (hello_auth hmac_sha256 nonce c.config) in
      record {
        unique_ids = λ n. ground (arith, v.unique_ids n, uses-append n c.written (hello ∷ []));
        messages = v.messages;
        errors = v.errors;
      }

  client_step-IsSound :
      (e : ClientEvent) (s : Callers) → IsSound s → IsSound (client_step hmac_sha256 decode e s)
  unfolding client_step handle_message
  client_step-IsSound (connects dialled ok nonce) s v =
      connect-Sound s.waiting dialled ok nonce s.client v
  client_step-IsSound (joins token) s v = drawn-Sound s.waiting _ s.client v refl
  client_step-IsSound (transcribes recipient text lang speaker final) s v =
      drawn-Sound s.waiting _ s.client v refl
  client_step-IsSound (gets_mutex ok k) s v = elim (uses-taken_at k s.waiting) [
    | inl out ↦ rw (out, client_step) v
    | inr (m, others, e, same) ↦
        rw (e, client_step)
          (send_message-Sound others ok m s.client (record {
            unique_ids = λ n. omega (arith, v.unique_ids n, same n);
            messages = v.messages;
            errors = v.errors;
          }))
  ]
  client_step-IsSound (sends ok m) s v =
      send_message-Sound s.waiting ok (signaling m) s.client
        (plain-Sound s.waiting (signaling m) s.client v refl)
  client_step-IsSound (reads quit ok bytes) s v =
      route-Sound s.waiting quit ok (decode (strip_signature bytes)) s.client v
  client_step-IsSound (fails of_closed e) s v = on_read_error-Sound s.waiting of_closed e s.client v
  client_step-IsSound takes_message s v = record {
    unique_ids = v.unique_ids;
    messages = length-rest msg_cap s.client.msg_chan v.messages;
    errors = v.errors;
  }
  client_step-IsSound takes_error s v = record {
    unique_ids = v.unique_ids;
    messages = v.messages;
    errors = length-rest err_cap s.client.err_chan v.errors;
  }
  client_step-IsSound looks s v = end_write_loop-Sound s.waiting s.client v

  -- Whatever happens to a client, from one that is sound, as a new one is, with any number of
  -- concurrent callers, whose ids are drawn before they get the mutex, in any order: no id stands
  -- twice among the hellos, room requests and transcripts that it wrote, over all its connections,
  -- and those that still wait to be written, and none is beyond its counter; its channels hold at
  -- most a hundred messages and ten errors.
  pub client_run-IsSound :
      (es : List ClientEvent) (s : Callers)
      → IsSound s
      → IsSound (client_run hmac_sha256 decode es s)
  unfolding client_run
  client_run-IsSound [] s v = v
  client_run-IsSound (e ∷ es) s v = client_run-IsSound es _ (client_step-IsSound e s v)
