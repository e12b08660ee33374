-- ===== src/Webrtc/Audio.antt =====
-- pkg/webrtc/manager.go: `onTrack`, and what `readAndDecodeAudio` does with a packet. The floating
-- point is a parameter, as are the packets and what the Opus decoder leaves in its buffer. `none`
-- is a panic of an index or slice out of range.
pub mod Mixing
use nc_kyutai_live_transcrip.Prelude.{
  Bool, List, Option, String, [], false, get_elem?, if◌then◌else◌, leb, length, none, not, some,
  str_eq, suc, take, true, zero, ℕ, ◌*◌, ◌++◌, ◌+◌, ◌==◌, ◌>>=◌, ◌||◌, ◌∷◌,
}
use nc_kyutai_live_transcrip.Webrtc.Manager.{Peer}

-- The float32 operations that the code uses: `x > y`, the sum, and the quotient by a count.
pub record Samples : Type 1 where
  pub F32 : Type 0
  pub above : F32 → F32 → Bool
  pub plus : F32 → F32 → F32
  pub over : F32 → ℕ → F32
  pub zero_sample : F32
  pub one : F32
  pub minus_one : F32

-- What `onTrack` reads of a remote track
pub record Track : Type 0 where
  pub is_audio : Bool
  pub mime_type : String
  pub clock_rate : ℕ
  pub channels : ℕ

-- `onTrack`, with whether it starts to read.
unfoldable pub on_track : Track → Peer → Peer × Bool
on_track track p =
    if not track.is_audio || not (str_eq track.mime_type "audio/opus") then (p, false) else (
      record p {
        sample_rate = if track.clock_rate == 0 then p.sample_rate else track.clock_rate;
        channels = if track.channels == 0 then p.channels else track.channels;
      },
      true,
    )

-- The channels of the decoder
abbrev pub decoder_channels : Peer → ℕ
decoder_channels p = if p.channels == 0 then 2 else p.channels

-- The samples of each channel that the buffer has room for
abbrev pub frame_cap : ℕ
frame_cap = 5760

module _ (S : Samples) where
  open S use {F32, above, plus, over, zero_sample, one, minus_one}

  -- What a round comes to: the peer is closing, the read fails, the payload is empty or does not
  -- decode, or the decoder leaves its buffer and the number of samples of each channel.
  pub data Packet : Type 0 where
    closing read_error empty_payload decode_error : Packet
    decoded : ℕ → List F32 → Packet

  abbrev pub clamp : F32 → F32
  clamp x = if above x one then one else if above minus_one x then minus_one else x

  -- The loop that clamps the first samples of the buffer
  unfoldable pub clamp_first : ℕ → List F32 → Option (List F32)
  clamp_first zero pcm = some pcm
  clamp_first (suc left) [] = none
  clamp_first (suc left) (x ∷ pcm) = clamp_first left pcm >>= λ rest. some (clamp x ∷ rest)

  -- The inner loop of the downmix, from channel `ch` on, for the sample at `i`.
  unfoldable pub sum_from : ℕ → List F32 → ℕ → ℕ → ℕ → F32 → Option F32
  sum_from channels pcm i ch zero sum = some sum
  sum_from channels pcm i ch (suc left) sum =
      get_elem? pcm (i * channels + ch) >>= λ x. sum_from channels pcm i (ch + 1) left (plus sum x)

  -- The outer loop, from the sample at `i` on.
  unfoldable pub mono_from : ℕ → List F32 → ℕ → ℕ → Option (List F32)
  mono_from channels pcm i zero = some []
  mono_from channels pcm i (suc left) = sum_from channels pcm i 0 channels zero_sample >>= λ sum.
      mono_from channels pcm (i + 1) left >>= λ rest. some (over sum channels ∷ rest)

  -- `pcmBuf[:n]`
  abbrev pub slice : ℕ → List F32 → Option (List F32)
  slice n pcm = if leb n (length pcm) then some (take n pcm) else none

  -- What is delivered of a decoded packet; nothing is where it has no samples.
  unfoldable pub deliver_frame : ℕ → ℕ → List F32 → Option (List (List F32))
  deliver_frame channels n pcm =
      if n == 0
      then some []
      else clamp_first (n * channels) pcm >>= λ clamped.
          (if channels == 1 then slice n clamped else mono_from channels clamped 0 n) >>= λ samples.
          some (samples ∷ [])

  -- The rounds of `readAndDecodeAudio`, until the peer is closing or a read fails: what is given to
  -- the callback. Where the library makes no decoder there is no round.
  unfoldable pub read_and_decode : ℕ → List Packet → Option (List (List F32))
  read_and_decode channels [] = some []
  read_and_decode channels (closing ∷ packets) = some []
  read_and_decode channels (read_error ∷ packets) = some []
  read_and_decode channels (empty_payload ∷ packets) = read_and_decode channels packets
  read_and_decode channels (decode_error ∷ packets) = read_and_decode channels packets
  read_and_decode channels (decoded n pcm ∷ packets) = deliver_frame channels n pcm >>= λ here.
      read_and_decode channels packets >>= λ rest. some (here ++ rest)
