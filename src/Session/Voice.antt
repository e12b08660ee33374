-- ===== src/Session/Voice.antt =====
-- pkg/session/transcriber.go: the whole life of a speaker's transcriber, with the callback that
-- `addSpeaker` gives to the peer connection (pkg/session/manager.go). The goroutines are `run`,
-- `processAudioLoop`, the first `Connect` and the client's read loop; `Close` cancels the context.
-- A step is one round of one of them. The context may be done in the middle of a round of the audio
-- goroutine, so how its selects go is an argument of each round.
pub mod Audio
pub mod Settled
pub mod Keeps
pub mod Turns
pub mod Steps
pub mod Ordered
pub mod Says
pub mod Spoken
mod Tests
use nc_kyutai_live_transcrip.Prelude.{
  Bool, List, Option, [], drop, if◌then◌else◌, not, offer, some, true, ℕ, ◌&&◌, ◌++◌, ◌>>=◌, ◌∷◌,
}
use nc_kyutai_live_transcrip.Json.{Fields}
use nc_kyutai_live_transcrip.Audio.Floats.{Floats}
use nc_kyutai_live_transcrip.Modal.Client.{close}
use nc_kyutai_live_transcrip.Session.Transcriber.{Caption, flush_pending_final}
use nc_kyutai_live_transcrip.Session.Run.{
  Runner, RunEvent, Effects, flush_tick, got_transcript, got_error, run_step, on_transcript,
  send_audio_chunk,
}
use nc_kyutai_live_transcrip.Session.Run.System.{
  System, SystemEvent, first_connect, loop_reports, loop_marks, loop_reads, system_step,
}
use nc_kyutai_live_transcrip.Session.AudioLoop.{
  Selects, audio_input_cap, AudioLoop, process_input_frame, finish,
}

-- Where the goroutine of `run` is: in its loop, in `drainOnShutdown`, or past its deferred calls.
pub data Phase : Type 0 where
  running draining ended : Phase

-- A round of `run`, or of the loop of `drainOnShutdown`: its ticker, a transcript, an error with
-- whether the dial that it may cause succeeds, or a chunk.
pub data Turn : Type 0 where
  at_tick at_transcript : Turn
  at_error : Bool → Turn
  at_chunk : Turn

-- The first `Connect` returns, or the read loop queues its error, or marks the client, or reads.
pub data ServiceEvent : Type 0 where
  connects : Bool → ServiceEvent
  reports : Bool → ServiceEvent
  marks : ServiceEvent
  hears_back : Bool → Option Fields → ServiceEvent

-- A dial under a context that is done fails.
abbrev pub service_event {ℓ} : {A : Type ℓ} → Bool → ServiceEvent → SystemEvent A
service_event cancelled (connects dialled) = first_connect (dialled && not cancelled)
service_event cancelled (reports normal) = loop_reports normal
service_event cancelled marks = loop_marks
service_event cancelled (hears_back quit msg) = loop_reads quit msg

module _ (F : Floats) where
  open F use {F32}

  -- `sent` and `said` are traces: the audio given to the service and the captions, oldest first.
  pub record Voice : Type 0 where
    pub audio : AudioLoop F
    pub system : System
    pub cancelled : Bool
    pub audio_done : Bool
    pub phase : Phase
    pub sent : List (List F32)
    pub said : List Caption

  pub data VoiceEvent : Type 0 where
    hears : List F32 → VoiceEvent
    resamples : Selects → VoiceEvent
    turns : ℕ → Turn → VoiceEvent
    service : ServiceEvent → VoiceEvent
    cancels : VoiceEvent
    audio_ends : (ℕ → Selects) → Selects → VoiceEvent
    drains : VoiceEvent
    ends : ℕ → VoiceEvent

  abbrev pub with_runner : Runner → Voice → Voice
  with_runner r v = record v { system = record (v.system) { runner = r } }

  -- The callback of `SetOnAudio`: the frame is dropped when the channel is full.
  abbrev pub on_audio : List F32 → Voice → Voice
  on_audio frame v = record v {
    audio = record (v.audio) {
      audio_input_ch = offer audio_input_cap v.audio.audio_input_ch frame;
    };
  }

  abbrev pub with_audio : Voice → AudioLoop F → Voice
  with_audio v a = record v { audio = a }

  -- A round of `processAudioLoop` takes the oldest frame.
  abbrev pub take_frame : Selects → List (List F32) → Voice → Option Voice
  take_frame sel [] v = some v
  take_frame sel (frame ∷ rest) v =
      process_input_frame F sel frame (record (v.audio) { audio_input_ch = rest }) >>= λ a.
      some (with_audio v a)

  -- The case of a chunk, in `run` and in `drainOnShutdown`
  abbrev pub take_chunk : List (List F32) → Voice → Voice
  take_chunk [] v = v
  take_chunk (chunk ∷ rest) v =
      let r = v.system.runner in
      let (count, out) = send_audio_chunk chunk r.audio_chunk_count r.client in
      record (with_runner (record r { audio_chunk_count = count }) v) {
        audio = record (v.audio) { audio_out_ch = rest };
        sent = v.sent ++ out;
      }

  abbrev pub with_effects : Voice → Runner × Effects F32 → Voice
  with_effects v (r, effects) = record (with_runner r v) {
    sent = v.sent ++ effects.sent;
    said = v.said ++ effects.captions;
  }

  abbrev pub drop_error : Runner → Runner
  drop_error r = record r { client = record (r.client) { err_ch = drop 1 r.client.err_ch } }

  -- A turn in the loop of `run`, in that of `drainOnShutdown`, which has no ticker and only logs an
  -- error, or when the goroutine is gone
  unfoldable pub turn : Phase → ℕ → Turn → Voice → Voice
  turn running now at_tick v = with_effects v (run_step now flush_tick v.system.runner)
  turn running now at_transcript v = with_effects v (run_step now got_transcript v.system.runner)
  turn running now (at_error dialled) v =
      with_effects v (run_step now (got_error (dialled && not v.cancelled)) v.system.runner)
  turn running now at_chunk v = take_chunk v.audio.audio_out_ch v
  turn draining now at_tick v = v
  turn draining now at_transcript v =
      with_effects v (on_transcript now v.system.runner.client.transcript_ch v.system.runner)
  turn draining now (at_error dialled) v = with_runner (drop_error v.system.runner) v
  turn draining now at_chunk v = take_chunk v.audio.audio_out_ch v
  turn ended now t v = v

  -- The case of `ctx.Done()` of `run`: the drain begins, once the audio goroutine is done or its
  -- time is up. The drain counts its chunks anew.
  abbrev pub begin_drain : Phase → Voice → Voice
  begin_drain running v =
      if v.cancelled
      then record (with_runner (record (v.system.runner) { audio_chunk_count = 0 }) v) {
        phase = draining;
      }
      else v
  begin_drain draining v = v
  begin_drain ended v = v

  -- The timer of the drain fires: the pending text goes out and the client is closed.
  abbrev pub end_drain : Phase → ℕ → Voice → Voice
  end_drain running now v = v
  end_drain draining now v =
      let r = v.system.runner in
      let (c, out) = flush_pending_final now r.captioner in
      record (with_runner (record r { captioner = c; client = close r.client }) v) {
        phase = ended;
        said = v.said ++ out;
      }
  end_drain ended now v = v

  abbrev pub end_audio : (ℕ → Selects) → Selects → Voice → Option Voice
  end_audio sels sel v =
      finish F sels sel v.audio >>= λ a. some (record v { audio = a; audio_done = true })

  unfoldable pub voice_step : VoiceEvent → Voice → Option Voice
  unfolding turn
  voice_step (hears frame) v = some (on_audio frame v)
  voice_step (resamples sel) v =
      if v.audio_done then some v else take_frame sel v.audio.audio_input_ch v
  voice_step (turns now t) v = some (turn v.phase now t v)
  voice_step (service e) v =
      some (record v { system = system_step (service_event {A = F32} v.cancelled e) v.system })
  voice_step cancels v = some (record v { cancelled = true })
  voice_step (audio_ends sels sel) v =
      if v.cancelled && not v.audio_done then end_audio sels sel v else some v
  voice_step drains v = some (begin_drain v.phase v)
  voice_step (ends now) v = some (end_drain v.phase now v)

  unfoldable pub voice_run : List VoiceEvent → Voice → Option Voice
  unfolding voice_step
  voice_run [] v = some v
  voice_run (e ∷ es) v = do v' ← voice_step e v; voice_run es v'
