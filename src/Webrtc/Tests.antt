-- ===== src/Webrtc/Tests.antt =====
-- Decoded audio on small inputs.
use nc_kyutai_live_transcrip.Prelude.{List, [], arith, ltb, refl, some, true, ℕ, ◌+◌, ◌/◌, ◌∷◌, ◌≡◌}
use nc_kyutai_live_transcrip.Webrtc.Manager.{new_peer}
use nc_kyutai_live_transcrip.Webrtc.Audio.{
  Samples, on_track, decoder_channels, Packet, read_error, empty_payload, decoded, read_and_decode,
}
use nc_kyutai_live_transcrip.Webrtc.Audio.Mixing.{read_and_decode-frames}

-- Whole numbers whose range is from 10 to 100
abbrev levels : Samples
levels = record {
  F32 = ℕ;
  above = λ x y. ltb y x;
  plus = λ x y. x + y;
  over = λ x n. x / n;
  zero_sample = 0;
  one = 100;
  minus_one = 10;
}

opus_track :
    decoder_channels
      (on_track
        (record { is_audio = true; mime_type = "audio/opus"; clock_rate = 48000; channels = 2 })
        (new_peer "s1")).0
    ≡ 2
unfolding on_track
opus_track = refl

abbrev packets : List (Packet levels)
packets =
    decoded 2 (20 ∷ 40 ∷ 200 ∷ 0 ∷ 7 ∷ 7 ∷ [])
    ∷ empty_payload
    ∷ decoded 0 []
    ∷ read_error
    ∷ decoded 1 (1 ∷ 1 ∷ [])
    ∷ []

read_and_decode-frames_example : read_and_decode levels 2 packets ≡ some ((30 ∷ 55 ∷ []) ∷ [])
read_and_decode-frames_example =
    read_and_decode-frames levels 2 packets
      (omega arith, (tt, (omega arith, (tt, (omega arith, tt)))))
