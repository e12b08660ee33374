-- ===== src/Session/Voice/Tests.antt =====
-- A transcriber from its first frames to its end, and the properties at it.
use nc_kyutai_live_transcrip.Prelude.{
  LeavesOut, List, [], arith, false, refl, some, true, ℕ, ◌++◌, ◌∷◌, ◌≡◌,
}
use nc_kyutai_live_transcrip.Audio.Halves.{halves}
use nc_kyutai_live_transcrip.Audio.Pipeline.{process_frame, resample, output_from, output_at}
use nc_kyutai_live_transcrip.Session.TranscriberTests.{start, loop}
use nc_kyutai_live_transcrip.Session.AudioLoop.Sending.{live}
use nc_kyutai_live_transcrip.Session.Voice.{
  Voice, VoiceEvent, running, at_chunk, at_transcript, connects, hears, resamples, turns, service,
  cancels, audio_ends, drains, ends, voice_run,
}
use nc_kyutai_live_transcrip.Json.{field, string, end, get_field}
use nc_kyutai_live_transcrip.Modal.Client.{token_or_end}
use nc_kyutai_live_transcrip.Session.Transcriber.{CaptionEvent}
use nc_kyutai_live_transcrip.Session.Transcriber.Captions.{segments, finals}
use nc_kyutai_live_transcrip.Session.Voice.{hears_back}
use nc_kyutai_live_transcrip.Session.Voice.Says.{transcripts_in}
use nc_kyutai_live_transcrip.Session.Voice.Spoken.{voice_run-spoken}
use nc_kyutai_live_transcrip.Session.Voice.Settled.{Settled}
use nc_kyutai_live_transcrip.Session.Voice.Keeps.{SilentIn}
use nc_kyutai_live_transcrip.Session.Voice.Turns.{passed}
use nc_kyutai_live_transcrip.Session.Voice.Ordered.{voice_run-ordered, voice_run-Settled}

abbrev voice : Voice halves
voice = record {
  audio = loop;
  system = record { runner = start; connecting = true; dying = false };
  cancelled = false;
  audio_done = false;
  phase = running;
  sent = [];
  said = [];
}

abbrev life : List (VoiceEvent halves)
life =
    hears (5 ∷ 6 ∷ 7 ∷ 8 ∷ [])
    ∷ resamples live
    ∷ turns 10 at_chunk
    ∷ cancels
    ∷ audio_ends (λ _. live) live
    ∷ drains
    ∷ turns 20 at_chunk
    ∷ turns 30 at_transcript
    ∷ ends 750
    ∷ service (connects true)
    ∷ []

-- 9 was buffered, and of the frames every other sample is kept.
voice_run-ordered_example :
    (last : Voice halves) × (voice_run halves life voice ≡ some last)
    × LeavesOut (passed halves last) (9 ∷ 1 ∷ 3 ∷ 5 ∷ 7 ∷ [])
unfolding process_frame resample output_from output_at
voice_run-ordered_example =
    voice_run-ordered halves life voice
      (record { queued = omega arith; positive = omega arith; short = omega arith })

voice_run-Settled_example :
    (last : Voice halves) × (voice_run halves life voice ≡ some last)
    × Settled halves last
    × SilentIn halves running voice last
voice_run-Settled_example =
    voice_run-Settled halves life voice
      (record { queued = omega arith; positive = omega arith; short = omega arith }) refl

-- A token, which is handled before the end of its utterance arrives, and the drain behind it
abbrev talking : List (VoiceEvent halves)
talking =
    service
      (hears_back false (some (field "type" (string "token") (field "text" (string "bon") end))))
    ∷ turns 100 at_transcript
    ∷ service (hears_back false (some (field "type" (string "vad_end") end)))
    ∷ cancels
    ∷ drains
    ∷ turns 200 at_transcript
    ∷ ends 900
    ∷ []

voice_run-spoken_example :
    (last : Voice halves) × (events : List (ℕ × CaptionEvent)) × (voice_run halves talking voice
      ≡ some last)
    × (finals last.said ≡ (segments "" events).1)
    × (last.system.runner.captioner.pending_text ≡ (segments "" events).0)
    × LeavesOut
        (transcripts_in events ++ last.system.runner.client.transcript_ch)
        (record { text = "bon"; final = false } ∷ record { text = ""; final = true } ∷ [])
unfolding token_or_end get_field
voice_run-spoken_example =
    voice_run-spoken halves talking voice
      (record { queued = omega arith; positive = omega arith; short = omega arith }) refl
