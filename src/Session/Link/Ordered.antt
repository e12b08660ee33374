-- ===== src/Session/Link/Ordered.antt =====
-- The order in which the loop of a room handles what its signaling client reads.
use nc_kyutai_live_transcrip.Prelude.{
  LeavesOut, LeavesOut-append, LeavesOut-more, LeavesOut-refl, LeavesOut-trans, List, String, [],
  ap, append-nil, append_assoc, arith, false, length, length-append, refl, sym, ℕ, ◌++◌, ◌∙◌, ◌∷◌,
  ◌≡◌, ◌≤◌,
}
use nc_kyutai_live_transcrip.Hpb.Types.{HpbMessage}
use nc_kyutai_live_transcrip.Hpb.Client.{
  Client, Incoming, msg_cap, strip_signature, handle_message, on_read_error, end_write_loop,
}
use nc_kyutai_live_transcrip.Hpb.Reading.{room_part}
use nc_kyutai_live_transcrip.Session.Room.{Environment}
use nc_kyutai_live_transcrip.Session.Reconnect.{Attempt, reconnect_hpb}
use nc_kyutai_live_transcrip.Session.Link.{
  Link, LinkEvent, reads, fails, looks, takes, reconnects, took_message, took_error, link_step,
  link_run,
}
use nc_kyutai_live_transcrip.Session.Link.Queue.{route-queue, route-exact, reconnect_from-quiet}

-- What was handled and what still waits
abbrev pub through : Link → List HpbMessage
through l = l.handled ++ l.client.msg_chan

module _ (env : Environment) (hmac_sha256 : String → String → String)
    (decode : List ℕ → Incoming) where
  -- What an event brings for the room
  abbrev brought : LinkEvent → List HpbMessage
  brought (reads quit ok bytes) = room_part decode (decode (strip_signature bytes))
  brought _ = []

  abbrev pub arrivals : List LinkEvent → List HpbMessage
  arrivals [] = []
  arrivals (e ∷ es) = brought e ++ arrivals es

  -- A message that is taken was the first of the queue.
  took_message-through :
      (now : ℕ) (queue : List HpbMessage) (l : Link)
      → l.client.msg_chan ≡ queue
      → (through (took_message env hmac_sha256 decode now queue l) ≡ through l)
        × ((took_message env hmac_sha256 decode now queue l).client.cancelled ≡ l.client.cancelled)
        × (length (took_message env hmac_sha256 decode now queue l).client.msg_chan
            ≤ length l.client.msg_chan)
  took_message-through now [] l e = (refl, refl, omega arith)
  took_message-through now (m ∷ rest) l e = (
    append_assoc l.handled (m ∷ []) rest ∙ ap (λ q. l.handled ++ q) (sym e),
    refl,
    omega (arith, ap length e),
  )

  took_error-through :
      (attempts : List Attempt) (errors : List String) (l : Link)
      → (through (took_error env hmac_sha256 decode attempts errors l) ≡ through l)
        × ((took_error env hmac_sha256 decode attempts errors l).client.cancelled
            ≡ l.client.cancelled)
        × (length (took_error env hmac_sha256 decode attempts errors l).client.msg_chan
            ≤ length l.client.msg_chan)
  unfolding reconnect_hpb
  took_error-through attempts [] l = (refl, refl, omega arith)
  took_error-through attempts (e ∷ rest) l =
      let (queue, live) =
        reconnect_from-quiet hmac_sha256 l.room.room_token 1 attempts
          (record (l.client) { err_chan = rest }) in
      (ap (λ q. l.handled ++ q) queue, live, omega (arith, ap length queue))

  end_write_loop-quiet :
      (c : Client)
      → ((end_write_loop c).msg_chan ≡ c.msg_chan) × ((end_write_loop c).cancelled ≡ c.cancelled)
  unfolding end_write_loop
  end_write_loop-quiet c = ground arith

  -- What an event does: what it brings goes behind the queue or is left out, and all of it goes
  -- there if the client is not cancelled and there is room for it.
  record Moves (e : LinkEvent) (l : Link) : Type 0 where
    order : LeavesOut (through (link_step env hmac_sha256 decode e l)) (through l ++ brought e)
    live : (link_step env hmac_sha256 decode e l).client.cancelled ≡ l.client.cancelled
    exact :
        l.client.cancelled ≡ false
        → length (l.client.msg_chan ++ brought e) ≤ msg_cap
        → (through (link_step env hmac_sha256 decode e l) ≡ through l ++ brought e)
          × (length (link_step env hmac_sha256 decode e l).client.msg_chan
              ≤ length (l.client.msg_chan ++ brought e))

  quiet-Moves :
      (e : LinkEvent) (l : Link)
      → brought e ≡ []
      → (through (link_step env hmac_sha256 decode e l) ≡ through l)
        × ((link_step env hmac_sha256 decode e l).client.cancelled ≡ l.client.cancelled)
        × (length (link_step env hmac_sha256 decode e l).client.msg_chan ≤ length l.client.msg_chan)
      → Moves e l
  quiet-Moves e l none_brought (same, live, shorter) = record {
    order = rw same (LeavesOut-more (through l) (brought e));
    live = live;
    exact = λ h place. (
      same ∙ sym (append-nil (through l)) ∙ ap (λ b. through l ++ b) (sym none_brought),
      omega (arith, shorter, length-append l.client.msg_chan (brought e)),
    );
  }

  step-Moves : (e : LinkEvent) (l : Link) → Moves e l
  unfolding link_step handle_message on_read_error
  step-Moves (reads quit ok bytes) l =
      let x = decode (strip_signature bytes) in
      let new = brought (reads quit ok bytes) in
      let (queue, live) = route-queue decode quit ok x l.client in
      record {
        order =
            rw (append_assoc l.handled l.client.msg_chan new)
              (LeavesOut-append (LeavesOut-refl l.handled) queue);
        live = live;
        exact = λ h place.
            let same = route-exact decode quit ok x l.client h place in
            (
              ap (λ q. l.handled ++ q) same ∙ sym (append_assoc l.handled l.client.msg_chan new),
              omega (arith, ap length same),
            );
      }
  step-Moves (fails of_closed e) l =
      quiet-Moves (fails of_closed e) l refl (refl, refl, omega arith)
  step-Moves looks l =
      let (queue, live) = end_write_loop-quiet l.client in
      quiet-Moves looks l refl
        (ap (λ q. l.handled ++ q) queue, live, omega (arith, ap length queue))
  step-Moves (takes now) l =
      quiet-Moves (takes now) l refl (took_message-through now l.client.msg_chan l refl)
  step-Moves (reconnects attempts) l =
      quiet-Moves (reconnects attempts) l refl (took_error-through attempts l.client.err_chan l)

  -- Whatever comes between the rounds of a room's loop, the messages that it handled, followed by
  -- those that still wait, are what was there before followed by the messages for the room that the
  -- client read since, in the order in which it read them, less the ones left out.
  pub link_run-ordered :
      (es : List LinkEvent) (l : Link)
      → LeavesOut (through (link_run env hmac_sha256 decode es l)) (through l ++ arrivals es)
  unfolding link_run
  link_run-ordered [] l = LeavesOut-more (through l) []
  link_run-ordered (e ∷ es) l =
      let l' = link_step env hmac_sha256 decode e l in
      LeavesOut-trans (link_run-ordered es l') (
        rw (sym (append_assoc (through l) (brought e) (arrivals es)))
          (LeavesOut-append (step-Moves e l).order (LeavesOut-refl (arrivals es))))

  -- Of a client that is not cancelled and whose queue has room for what waits and for all that it
  -- reads, the loop leaves nothing out: what it handled, followed by what still waits, is what was
  -- there before followed by every message for the room that the client read since, in their order.
  pub link_run_complete :
      (es : List LinkEvent) (l : Link)
      → l.client.cancelled ≡ false
      → length (l.client.msg_chan ++ arrivals es) ≤ msg_cap
      → through (link_run env hmac_sha256 decode es l) ≡ through l ++ arrivals es
  unfolding link_run
  link_run_complete [] l live place = sym (append-nil (through l))
  link_run_complete (e ∷ es) l live place =
      let l' = link_step env hmac_sha256 decode e l in
      let moves = step-Moves e l in
      let (same, shorter) = moves.exact live (
        omega (
          arith,
          place,
          length-append l.client.msg_chan (brought e),
          length-append l.client.msg_chan (brought e ++ arrivals es),
          length-append (brought e) (arrivals es),
        )) in
      link_run_complete es l' (moves.live ∙ live) (
        omega (
          arith,
          place,
          shorter,
          length-append l.client.msg_chan (brought e),
          length-append l.client.msg_chan (brought e ++ arrivals es),
          length-append (brought e) (arrivals es),
          length-append l'.client.msg_chan (arrivals es),
        ))
      ∙ ap (λ t. t ++ arrivals es) same
      ∙ append_assoc (through l) (brought e) (arrivals es)
