-- ===== src/Session/Run.antt =====
-- pkg/session/transcriber.go: the loop of `run`, with its reconnection to the service, and
-- `drainOnShutdown`. A round of the `select` is an event; which case is ready is the environment's.
pub mod Backoff
pub mod System
pub mod Lost
pub mod Shutdown
use nc_kyutai_live_transcrip.Prelude.{
  Bool, List, Option, [], if◌then◌else◌, leb, length, min, none, not, some, suc, ℕ, ◌&&◌, ◌*◌, ◌++◌,
  ◌+◌, ◌==◌, ◌||◌, ◌∷◌,
}
use nc_kyutai_live_transcrip.Modal.Client.{
  Transcript, ModalError, Client, is_normal_close, connect, is_connected, send_audio,
}
use nc_kyutai_live_transcrip.Session.Transcriber.{
  Captioner, Caption, handle_transcript, flush_pending_broadcast, flush_pending_final,
}

abbrev pub max_attempts : ℕ
max_attempts = 5

abbrev pub backoff_base : ℕ
backoff_base = 2

-- The variables of `run`, with its transcriber's captions and service client. The multiplier is a
-- float64 that only ever holds whole numbers.
pub record Runner : Type 0 where
  pub captioner : Captioner
  pub client : Client
  pub audio_chunk_count : ℕ
  pub modal_connect_attempts : ℕ
  pub backoff_multiplier : ℕ

-- What a round does besides: captions, audio to the service and seconds slept.
pub record Effects {ℓ} (A : Type ℓ) : Type ℓ where
  pub captions : List Caption
  pub sent : List (List A)
  pub slept : ℕ

abbrev pub just {ℓ} : {A : Type ℓ} → List Caption → Effects A
just cs = record { captions = cs; sent = []; slept = 0 }

-- The attempt to reconnect, given whether the dial succeeds.
unfoldable pub try_reconnect : Bool → Runner → Runner × ℕ
try_reconnect dialled r =
    let (client', up) = connect dialled r.client in
    let next = min (r.backoff_multiplier * backoff_base) 60 in
    if up
    then (
      record r { client = client'; modal_connect_attempts = 0; backoff_multiplier = 1 },
      r.backoff_multiplier,
    )
    else (
      record r {
        client = client';
        modal_connect_attempts = r.modal_connect_attempts + 1;
        backoff_multiplier = next;
      },
      r.backoff_multiplier,
    )

-- The cases of the `select` of `run`; a chunk comes with its value.
pub data RunEvent {ℓ} (A : Type ℓ) : Type ℓ where
  flush_tick got_transcript : RunEvent A
  got_error : Bool → RunEvent A
  got_chunk : List A → RunEvent A

module _ {ℓ} {A : Type ℓ} where
  abbrev sent_list : Option (List A) → List (List A)
  sent_list none = []
  sent_list (some chunk) = chunk ∷ []

  -- `sendAudioChunk`, without its logging
  unfoldable pub send_audio_chunk : List A → ℕ → Client → ℕ × List (List A)
  send_audio_chunk chunk count client =
      if length chunk == 0 || not (is_connected client)
      then (count, [])
      else (count + 1, sent_list (send_audio client chunk))

  -- The case of `run` for an error from the service.
  unfoldable pub on_modal_error : ℕ → Bool → ModalError → Runner → Runner × Effects A
  on_modal_error now dialled e r =
      if is_normal_close e
      then (let (c, out) = flush_pending_final now r.captioner in
          (record r { captioner = c }, just out))
      else if not (is_connected r.client) && leb (suc r.modal_connect_attempts) max_attempts
      then (let (r', slept) = try_reconnect dialled r in
          (r', record { captions = []; sent = []; slept = slept }))
      else (r, just [])

  -- Take the oldest transcript, or the oldest error, from its channel.
  unfoldable pub on_transcript : ℕ → List Transcript → Runner → Runner × Effects A
  on_transcript now [] r = (r, just [])
  on_transcript now (tr ∷ rest) r =
      let (c, out) = handle_transcript now tr r.captioner in
      (record r { captioner = c; client = record r.client { transcript_ch = rest } }, just out)

  unfoldable pub on_error : ℕ → Bool → List ModalError → Runner → Runner × Effects A
  on_error now dialled [] r = (r, just [])
  on_error now dialled (e ∷ rest) r =
      on_modal_error now dialled e (record r { client = record r.client { err_ch = rest } })

  -- One round of the loop of `run`. A case whose channel is empty is not ready: nothing happens.
  unfoldable pub run_step : ℕ → RunEvent A → Runner → Runner × Effects A
  run_step now flush_tick r =
      let (c, out) = flush_pending_broadcast now r.captioner in
      (record r { captioner = c }, just out)
  run_step now got_transcript r = on_transcript now r.client.transcript_ch r
  run_step now (got_error dialled) r = on_error now dialled r.client.err_ch r
  run_step now (got_chunk chunk) r =
      let (count, sent) = send_audio_chunk chunk r.audio_chunk_count r.client in
      (record r { audio_chunk_count = count }, record { captions = []; sent = sent; slept = 0 })

-- What `drainOnShutdown` takes until its timer fires.
pub data DrainEvent {ℓ} (A : Type ℓ) : Type ℓ where
  drained_chunk : List A → DrainEvent A
  drained_transcript : Transcript → DrainEvent A
  drained_error : ModalError → DrainEvent A

module _ {ℓ} {A : Type ℓ} where
  -- The loop of `drainOnShutdown`, after its wait for the audio goroutine, up to the timer.
  unfoldable pub drain_from :
      ℕ → Client → Captioner → List (ℕ × DrainEvent A) → Captioner × List Caption × List (List A)
  drain_from count client c [] = (c, [], [])
  drain_from count client c ((now, drained_chunk chunk) ∷ es) =
      let (count', out) = send_audio_chunk chunk count client in
      let (last, captions, sent) = drain_from count' client c es in (last, captions, out ++ sent)
  drain_from count client c ((now, drained_transcript tr) ∷ es) =
      let (c', out) = handle_transcript now tr c in
      let (last, captions, sent) = drain_from count client c' es in (last, out ++ captions, sent)
  drain_from count client c ((now, drained_error e) ∷ es) = drain_from count client c es

  -- `drainOnShutdown`: the timer fires at the given time, and the pending text goes out.
  unfoldable pub drain_on_shutdown :
      Client → Captioner → List (ℕ × DrainEvent A) → ℕ → Captioner × List Caption × List (List A)
  unfolding drain_from
  drain_on_shutdown client c es timer =
      let (last, captions, sent) = drain_from 0 client c es in
      let (done, out) = flush_pending_final timer last in (done, captions ++ out, sent)
