-- ===== src/Session/TranscriberTests.antt =====
-- Runs of a transcriber on small inputs, and its properties at them.

use nc_kyutai_live_transcrip.Prelude.{
  List, String, [], arith, false, refl, some, true, ℕ, ◌++◌, ◌∷◌, ◌≡◌,
}
use nc_kyutai_live_transcrip.Audio.Halves.{halves, halves-IsExact, speaker_pipeline}
use nc_kyutai_live_transcrip.Audio.ChunkBuffer.{cut, add, flush}
use nc_kyutai_live_transcrip.Audio.ChunkBuffer.Exact.{IsCut}
use nc_kyutai_live_transcrip.Audio.Pipeline.{
  new_pipeline, new_resampler, process_frame, resample, output_from, output_at,
}
use nc_kyutai_live_transcrip.Modal.Client.{Client, Config, read_error}
use nc_kyutai_live_transcrip.Session.Transcriber.{
  CaptionEvent, transcript, tick, caption_step, caption_run, new_captioner,
}
use nc_kyutai_live_transcrip.Session.Transcriber.Captions.{
  finals, shown, captions_refine, tick_catches_up,
}
use nc_kyutai_live_transcrip.Session.Run.{
  Runner, got_error, got_transcript, DrainEvent, drained_transcript, drained_chunk,
  drain_on_shutdown,
}
use nc_kyutai_live_transcrip.Session.Run.System.{
  first_connect, round, loop_reports, loop_marks, system_run,
}
use nc_kyutai_live_transcrip.Session.Run.Lost.{one_attempt_only, error_before_mark}
use nc_kyutai_live_transcrip.Session.Run.Shutdown.{drain_flushes}
use nc_kyutai_live_transcrip.Session.AudioLoop.{
  Selects, AudioLoop, add_audio_frame, added, process_frames, process_input_frame,
  buffer_and_enqueue, enqueue_audio_chunks, drain_audio_input, flush_audio_cache_tail, send_tail,
  finish,
}
use nc_kyutai_live_transcrip.Session.AudioLoop.Ending.{last_chunk, finish_faithful}
use nc_kyutai_live_transcrip.Session.AudioLoop.Faithful.{frames_faithful}
use nc_kyutai_live_transcrip.Session.AudioLoop.Sending.{live}

abbrev token : String → CaptionEvent
token s = transcript (record { text = s; final = false })

abbrev vad_end : CaptionEvent
vad_end = transcript (record { text = ""; final = true })

abbrev talk : List (ℕ × CaptionEvent)
talk =
    (100, token "bon") ∷ (120, token "jour") ∷ (180, tick) ∷ (200, vad_end) ∷ (300, token "a") ∷ []

talk_run :
    (caption_run new_captioner talk).1
    ≡ record { text = "bon"; final = false }
      ∷ record { text = "bonjour"; final = false }
      ∷ record { text = "bonjour"; final = true }
      ∷ record { text = "a"; final = false }
      ∷ []
unfolding caption_run caption_step
talk_run = refl

captions_refine_example :
    ((caption_run new_captioner talk).0.pending_text ≡ "a")
    × (finals (caption_run new_captioner talk).1 ≡ "bonjour" ∷ [])
captions_refine_example = captions_refine new_captioner talk refl

tick_catches_up_example :
    let (t, out) = caption_run new_captioner talk in
    let (t', sent) = caption_step 310 tick t in
    (shown "" (out ++ sent) ≡ t.pending_text)
    × (t'.pending_text ≡ t.pending_text)
    × ((caption_step 400 tick t').1 ≡ [])
tick_catches_up_example = tick_catches_up talk 310 400

abbrev service : Config
service = record { workspace = ""; stream_url = "ws://stt"; key = ""; secret = "" }

abbrev up_client : Client
up_client = record {
  config = service;
  has_conn = true;
  connected = true;
  cancelled = false;
  reading = 1;
  transcript_ch = [];
  err_ch = [];
}

abbrev pub start : Runner
start = record {
  captioner = new_captioner;
  client = up_client;
  audio_chunk_count = 0;
  modal_connect_attempts = 0;
  backoff_multiplier = 1;
}

abbrev broken : Runner
broken = record start {
  client = record up_client { connected = false; reading = 0; err_ch = read_error false ∷ [] };
}

one_attempt_only_example :
    (system_run {A = ℕ}
      (record { runner = broken; connecting = false; dying = false })
      (round 7 (got_error false) ∷ round 8 got_transcript ∷ [])).runner.client.connected
    ≡ false
one_attempt_only_example =
    one_attempt_only ℕ (record { runner = broken; connecting = false; dying = false }) 7
      (round 8 got_transcript ∷ []) refl refl refl refl refl

error_before_mark_example :
    (system_run {A = ℕ}
      (record { runner = start; connecting = false; dying = false })
      (loop_reports false
        ∷ round 7 (got_error true)
        ∷ loop_marks
        ∷ first_connect true
        ∷ [])).runner.client.connected
    ≡ false
error_before_mark_example =
    error_before_mark ℕ (record { runner = start; connecting = false; dying = false }) 7 true
      (first_connect true ∷ []) refl refl refl refl refl

abbrev last_words : List (ℕ × DrainEvent ℕ)
last_words =
    (10, drained_chunk (1 ∷ 2 ∷ []))
    ∷ (11, drained_transcript (record { text = "fin"; final = false }))
    ∷ []

drain_flushes_example :
    let (done, captions, sent) = drain_on_shutdown up_client new_captioner last_words 750 in
    (done.pending_text ≡ "") × (finals captions ≡ "fin" ∷ []) × (sent ≡ (1 ∷ 2 ∷ []) ∷ [])
drain_flushes_example = drain_flushes up_client new_captioner last_words 750 refl

abbrev pub loop : AudioLoop halves
loop = record {
  audio_pipe = speaker_pipeline;
  audio_cache = record { chunk_size = 2; buffer = 9 ∷ [] };
  audio_input_ch = (1 ∷ 2 ∷ 3 ∷ 4 ∷ []) ∷ [];
  audio_out_ch = [];
  frame_count = 0;
}

-- The context is done, and the selects send.
abbrev done_sending : Selects
done_sending = record { done = λ _. true; prefers_done = λ _. false }

frames_faithful_example :
    (t : AudioLoop halves) × (chunks : List (List ℕ)) × (process_frames halves
        (λ _. live)
        ((5 ∷ 6 ∷ 7 ∷ 8 ∷ []) ∷ [])
        loop
      ≡ some t)
    × (t.audio_out_ch ≡ [] ++ chunks)
    × IsCut 2 (9 ∷ 5 ∷ 7 ∷ []) chunks t.audio_cache.buffer
unfolding halves-IsExact
frames_faithful_example =
    frames_faithful halves halves-IsExact ((5 ∷ 6 ∷ 7 ∷ 8 ∷ []) ∷ []) loop (omega arith) (record {
      made = unfold new_pipeline new_resampler in refl;
      short = omega arith;
      room = omega arith;
    })

finish_faithful_example :
    (t : AudioLoop halves) × (chunks : List (List ℕ)) × (rest : List ℕ) × (finish halves
        (λ _. done_sending)
        done_sending
        loop
      ≡ some t)
    × IsCut 2 (9 ∷ 1 ∷ 3 ∷ []) chunks rest
    × (t.audio_out_ch ≡ [] ++ chunks ++ last_chunk rest)
    × (t.audio_cache.buffer ≡ [])
unfolding halves-IsExact
finish_faithful_example =
    finish_faithful halves halves-IsExact (λ _. done_sending) done_sending loop (λ k n. refl)
      (λ n. refl) (omega arith)
      (record {
        made = unfold new_pipeline new_resampler in refl;
        short = omega arith;
        room = omega arith;
      })

audio : Unit {0}
unfolding process_frames process_input_frame buffer_and_enqueue enqueue_audio_chunks
    drain_audio_input flush_audio_cache_tail send_tail finish cut add flush process_frame resample
    output_from output_at
audio = tt

-- With the context done and no choice for it, the queued frame and the tail go out.
finish_keeps :
    finish halves (λ _. live) live loop
    ≡ some (record loop {
      audio_cache = record { chunk_size = 2; buffer = [] };
      audio_input_ch = [];
      audio_out_ch = (9 ∷ 1 ∷ []) ∷ (3 ∷ []) ∷ [];
      frame_count = 1;
    })
unfolding audio
finish_keeps = refl

add_full : (add_audio_frame {A = ℕ} false live (1 ∷ []) []).1 ≡ added
unfolding add_audio_frame
add_full = refl
