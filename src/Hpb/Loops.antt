-- ===== src/Hpb/Loops.antt =====
-- Runs of the client of pkg/hpb/client.go until it is closed, with its concurrent callers.
pub mod Ids
pub mod Sound
use nc_kyutai_live_transcrip.Prelude.{
  Bool, List, Option, String, [], none, some, suc, zero, ℕ, ◌++◌, ◌>>=◌, ◌∷◌,
}
use nc_kyutai_live_transcrip.Hpb.Types.{MessageMessage}
use nc_kyutai_live_transcrip.Hpb.Client.{
  Client, Outgoing, signaling, Incoming, send_message, drawn_join, drawn_transcript, handle_message,
  on_read_error, connect, end_write_loop,
}

-- A client, and the messages of the calls of `JoinRoom` and `SendTranscript` that have drawn an id
-- and do not have the mutex yet.
pub record Callers : Type 0 where
  pub client : Client
  pub waiting : List Outgoing

-- What happens to a client: a call of `Connect`, which holds the mutex; `JoinRoom` or
-- `SendTranscript` draws its id; the call at a place among those that wait gets the mutex, which Go
-- gives to any of them; a call of `SendMessage`; a read or a failed one; the room takes a message
-- or an error; and a write loop looks whether it should end.
pub data ClientEvent : Type 0 where
  connects : Bool → Bool → String → ClientEvent
  joins : String → ClientEvent
  transcribes : String → String → String → String → Bool → ClientEvent
  gets_mutex : Bool → ℕ → ClientEvent
  sends : Bool → MessageMessage → ClientEvent
  reads : Bool → Bool → List ℕ → ClientEvent
  fails : Bool → String → ClientEvent
  takes_message takes_error looks : ClientEvent

abbrev pub rest_of {ℓ} : {A : Type ℓ} → List A → List A
rest_of [] = []
rest_of (x ∷ xs) = xs

abbrev pub with_client : Client → Callers → Callers
with_client c s = record s { client = c }

-- A call waits with what it drew.
abbrev pub waits : Client × Outgoing → Callers → Callers
waits (c, m) s = record s { client = c; waiting = s.waiting ++ m ∷ [] }

-- The message at a place, and the others
unfoldable pub taken_at {ℓ} : {A : Type ℓ} → ℕ → List A → Option (A × List A)
taken_at k [] = none
taken_at zero (x ∷ xs) = some (x, xs)
taken_at (suc k) (x ∷ xs) = taken_at k xs >>= λ r. some (r.0, x ∷ r.1)

abbrev pub sent_off : Bool → Option (Outgoing × List Outgoing) → Callers → Callers
sent_off ok none s = s
sent_off ok (some (m, others)) s = record {
  client = (send_message ok m s.client).0;
  waiting = others;
}

module _ (hmac_sha256 : String → String → String) (decode : List ℕ → Incoming) where
  unfoldable pub client_step : ClientEvent → Callers → Callers
  client_step (connects dialled ok nonce) s =
      with_client (connect hmac_sha256 dialled ok nonce s.client).0 s
  client_step (joins token) s = waits (drawn_join token s.client) s
  client_step (transcribes recipient text lang speaker final) s =
      waits (drawn_transcript recipient text lang speaker final s.client) s
  client_step (gets_mutex ok k) s = sent_off ok (taken_at k s.waiting) s
  client_step (sends ok m) s = with_client (send_message ok (signaling m) s.client).0 s
  client_step (reads quit ok bytes) s = with_client (handle_message decode quit ok bytes s.client) s
  client_step (fails of_closed e) s = with_client (on_read_error of_closed e s.client) s
  client_step takes_message s =
      with_client (record (s.client) { msg_chan = rest_of s.client.msg_chan }) s
  client_step takes_error s =
      with_client (record (s.client) { err_chan = rest_of s.client.err_chan }) s
  client_step looks s = with_client (end_write_loop s.client) s

  unfoldable pub client_run : List ClientEvent → Callers → Callers
  unfolding client_step
  client_run [] s = s
  client_run (e ∷ es) s = client_run es (client_step e s)
