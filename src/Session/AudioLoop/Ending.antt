-- ===== src/Session/AudioLoop/Ending.antt =====
-- The audio goroutine of pkg/session/transcriber.go at the end of the context: `drainAudioInput`
-- and `flushAudioCacheTail`.
use native.Mathlib.Nat.{lt_of_mul-lt-mul_right}
use nc_kyutai_live_transcrip.Prelude.{
  All, List, [], ap, append-nil, arith, false, leb, length, length-append, lt→leb_false, pos, refl,
  some, sym, ℕ, ◌*◌, ◌++◌, ◌+◌, ◌<◌, ◌∙◌, ◌∷◌, ◌≡◌, ◌≤◌,
}
use nc_kyutai_live_transcrip.Audio.Floats.{Floats}
use nc_kyutai_live_transcrip.Audio.ChunkBuffer.{flush}
use nc_kyutai_live_transcrip.Audio.ChunkBuffer.Exact.{IsCut}
use nc_kyutai_live_transcrip.Audio.Pipeline.{new_pipeline}
use nc_kyutai_live_transcrip.Audio.Pipeline.Halving.{IsExact}
use nc_kyutai_live_transcrip.Session.AudioLoop.{
  Selects, audio_out_cap, send_tail, AudioLoop, drain_audio_input, flush_audio_cache_tail, finish,
}
use nc_kyutai_live_transcrip.Session.AudioLoop.Sending.{PrefersSend, goes_on, cut_count}
use nc_kyutai_live_transcrip.Session.AudioLoop.Faithful.{resampled, Fine, frames_send}

module _ {ℓ} {A : Type ℓ} where
  -- What is left at the end makes a chunk of its own, unless nothing is left.
  abbrev pub last_chunk : List A → List (List A)
  last_chunk [] = []
  last_chunk (x ∷ xs) = (x ∷ xs) ∷ []

  send_tail_sends :
      (sel : Selects) (tail : List A) (out : List (List A))
      → PrefersSend sel
      → (0 < length tail → length out < audio_out_cap)
      → send_tail sel tail out ≡ out ++ last_chunk tail
  unfolding send_tail
  send_tail_sends sel [] out sends room = sym (append-nil out)
  send_tail_sends sel (x ∷ xs) out sends room =
      let below : length out < audio_out_cap = room (omega arith) in
      let free : leb audio_out_cap (length out) ≡ false = lt→leb_false _ _ below in
      ground (arith, goes_on sel out sends below, free)

-- A tail finds a place behind the chunks.
tail_room :
    (n size tail total : ℕ) → n * size + tail ≤ total → total ≤ 25 * size → 0 < tail → n < 25
tail_room n size tail total h k some_left =
    let below : n * size < 25 * size = omega arith in lt_of_mul-lt-mul_right size below

module _ (F : Floats) (E : IsExact F) where
  -- The pipeline of `addSpeaker`, less than a chunk buffered, and room for the queued audio, a last
  -- chunk included.
  pub record IsEnding (s : AudioLoop F) : Type 0 where
    pub made : new_pipeline F (pos 48000) (pos 24000) ≡ some s.audio_pipe
    pub short : length s.audio_cache.buffer < s.audio_cache.chunk_size
    pub room :
        length s.audio_out_ch * s.audio_cache.chunk_size
          + length s.audio_cache.buffer
          + length (resampled s.audio_input_ch)
        ≤ 25 * s.audio_cache.chunk_size

  -- The end of the context, with a speaker's pipeline, less than a chunk buffered and room in the
  -- output channel for all of it, where every select that can send does so, although the context is
  -- done: no audio is lost. The goroutine ends; what it adds to the channel is a cutting of the
  -- buffer and of the queued frames at half the rate, in order, into full chunks, and what they
  -- leave over as a last, shorter chunk, if anything is left; and the buffer is empty. This is
  -- under the IEEE 754 facts of `IsExact`, for frames of samples that are finite and not the
  -- negative zero.
  pub finish_faithful :
      (sels : ℕ → Selects) (sel : Selects) (s : AudioLoop F)
      → ((k : ℕ) → PrefersSend (sels k))
      → PrefersSend sel
      → All (Fine F E) s.audio_input_ch
      → IsEnding s
      → (t : AudioLoop F) × (chunks : List (List F.F32)) × (rest : List F.F32) × (finish F sels sel
            s
          ≡ some t)
        × IsCut s.audio_cache.chunk_size
            (s.audio_cache.buffer ++ resampled s.audio_input_ch)
            chunks
            rest
        × (t.audio_out_ch ≡ s.audio_out_ch ++ chunks ++ last_chunk rest)
        × (t.audio_cache.buffer ≡ [])
  unfolding finish drain_audio_input flush_audio_cache_tail flush
  finish_faithful sels sel s each sends fine v =
      let frames = s.audio_input_ch in
      let size = s.audio_cache.chunk_size in
      let start : AudioLoop F = record s { audio_input_ch = [] } in
      let (t, e, a) =
        frames_send F E sels frames start each fine
          (record { made = v.made; short = v.short; room = omega (arith, v.room, v.short) }) in
      let rest = t.audio_cache.buffer in
      let place : 0 < length rest → length t.audio_out_ch < audio_out_cap = λ left.
        rw (a.queued, length-append s.audio_out_ch a.chunks)
          (tail_room (length s.audio_out_ch + length a.chunks) size (length rest)
            (length s.audio_out_ch * size + length s.audio_cache.buffer + length (resampled frames))
            (omega (
              arith,
              cut_count size _ a.chunks rest a.is_cut,
              length-append s.audio_cache.buffer (resampled frames),
            ))
            v.room left) in
      (
        record t {
          audio_cache = record t.audio_cache { buffer = [] };
          audio_out_ch = send_tail sel rest t.audio_out_ch;
        },
        a.chunks,
        rest,
        rw e refl,
        a.is_cut,
        send_tail_sends sel rest t.audio_out_ch sends place
            ∙ ap (λ l. l ++ last_chunk rest) a.queued,
        refl,
      )
