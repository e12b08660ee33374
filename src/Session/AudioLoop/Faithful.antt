-- ===== src/Session/AudioLoop/Faithful.antt =====
-- The audio goroutine while the context is live and the queue has room.
use nc_kyutai_live_transcrip.Prelude.{
  All, List, [], ap, append-nil, append_assoc, arith, length, length-append, pos, refl, some, suc,
  sym, ℕ, ◌*◌, ◌++◌, ◌+◌, ◌<◌, ◌∙◌, ◌∷◌, ◌≡◌, ◌≤◌,
}
use nc_kyutai_live_transcrip.Audio.Floats.{Floats}
use nc_kyutai_live_transcrip.Audio.ChunkBuffer.Exact.{IsCut, add-IsCut}
use nc_kyutai_live_transcrip.Audio.ChunkBuffer.Stream.{IsCut-append}
use nc_kyutai_live_transcrip.Audio.Pipeline.{new_pipeline}
use nc_kyutai_live_transcrip.Audio.Pipeline.Halving.{
  every_other, exact_below, IsExact, process_frame_halves,
}
use nc_kyutai_live_transcrip.Session.AudioLoop.Sending.{
  PrefersSend, live, enqueue_sends, cut_count, few_chunks,
}
use nc_kyutai_live_transcrip.Session.AudioLoop.{
  Selects, audio_out_cap, enqueue_audio_chunks, AudioLoop, buffer_and_enqueue, process_input_frame,
  process_frames,
}

-- The resampled frames, one after the other.
abbrev pub resampled {ℓ} : {A : Type ℓ} → List (List A) → List A
resampled [] = []
resampled (f ∷ fs) = every_other f ++ resampled fs

module _ (F : Floats) (E : IsExact F) where
  abbrev pub Fine : List F.F32 → Type 0
  Fine frame = (length frame < exact_below) × All E.IsPlain frame

  -- From one state to a later one: chunks were added at the end of the queue, and they and the new
  -- buffer are a cutting of the old buffer and the given samples.
  pub record Advances (s : AudioLoop F) (samples : List F.F32) (t : AudioLoop F) : Type 0 where
    pub chunks : List (List F.F32)
    pub queued : t.audio_out_ch ≡ s.audio_out_ch ++ chunks
    pub is_cut :
        IsCut s.audio_cache.chunk_size (s.audio_cache.buffer ++ samples) chunks t.audio_cache.buffer
    pub same_size : t.audio_cache.chunk_size ≡ s.audio_cache.chunk_size
    pub same_pipe : t.audio_pipe ≡ s.audio_pipe

  -- The pipeline of `addSpeaker`, less than a chunk buffered, and room for so many more samples.
  pub record IsReady (s : AudioLoop F) (more : ℕ) : Type 0 where
    pub made : new_pipeline F (pos 48000) (pos 24000) ≡ some s.audio_pipe
    pub short : length s.audio_cache.buffer < s.audio_cache.chunk_size
    pub room :
        length s.audio_out_ch * s.audio_cache.chunk_size + length s.audio_cache.buffer + more
        < 26 * s.audio_cache.chunk_size

  buffer_sends :
      (sel : Selects) (samples : List F.F32) (s : AudioLoop F)
      → PrefersSend sel
      → IsReady s (length samples)
      → (t : AudioLoop F) × (buffer_and_enqueue F sel samples s ≡ some t) × Advances s samples t
  unfolding buffer_and_enqueue
  buffer_sends sel samples s sends v =
      let size = s.audio_cache.chunk_size in
      let (chunks, rest, e, c) = add-IsCut s.audio_cache samples (omega (arith, v.short)) in
      let n = length s.audio_out_ch in
      let fits : n + length chunks ≤ audio_out_cap =
        few_chunks (n + length chunks) size
          (n * size + length s.audio_cache.buffer + length samples)
          (omega
            (arith, cut_count size _ chunks rest c, length-append s.audio_cache.buffer samples))
          v.room in
      (
        record s {
          audio_cache = record s.audio_cache { buffer = rest };
          audio_out_ch = enqueue_audio_chunks sel chunks s.audio_out_ch;
        },
        rw e refl,
        record {
          chunks = chunks;
          queued = enqueue_sends sel chunks s.audio_out_ch sends fits;
          is_cut = c;
          same_size = refl;
          same_pipe = refl;
        },
      )

  Advances-nothing :
      (s : AudioLoop F) → length s.audio_cache.buffer < s.audio_cache.chunk_size → Advances s [] s
  Advances-nothing s short = record {
    chunks = [];
    queued = sym (append-nil s.audio_out_ch);
    is_cut = record { whole = sym (append-nil s.audio_cache.buffer); full = tt; short = short };
    same_size = refl;
    same_pipe = refl;
  }

  frame_sends :
      (sel : Selects) (frame : List F.F32) (s : AudioLoop F)
      → PrefersSend sel
      → Fine frame
      → IsReady s (length (every_other frame))
      → (t : AudioLoop F) × (process_input_frame F sel frame s ≡ some t)
        × Advances s (every_other frame) t
  unfolding process_input_frame
  frame_sends sel [] s sends fine v = (s, refl, Advances-nothing s v.short)
  frame_sends sel (x ∷ xs) s sends fine v =
      let halved = process_frame_halves F E s.audio_pipe (x ∷ xs) v.made fine.0 fine.1 in
      let counted = record s { frame_count = s.frame_count + 1 } in
      let (t, e, a) =
        buffer_sends sel (every_other (x ∷ xs)) counted sends
          (record { made = v.made; short = v.short; room = v.room }) in
      (
        t,
        rw halved e,
        record {
          chunks = a.chunks;
          queued = a.queued;
          is_cut = a.is_cut;
          same_size = a.same_size;
          same_pipe = a.same_pipe;
        },
      )

  module _ (s t : AudioLoop F) (samples : List F.F32) (a : Advances s samples t) where
    Advances-trans :
        (more : List F.F32) (u : AudioLoop F) → Advances t more u → Advances s (samples ++ more) u
    Advances-trans more u b = record {
      chunks = a.chunks ++ b.chunks;
      queued =
          b.queued
          ∙ ap (λ l. l ++ b.chunks) a.queued
          ∙ append_assoc s.audio_out_ch a.chunks b.chunks;
      is_cut = rw (← append_assoc s.audio_cache.buffer samples more) (
          IsCut-append (s.audio_cache.buffer ++ samples) more a.chunks b.chunks t.audio_cache.buffer
            u.audio_cache.buffer a.is_cut (rw a.same_size at b.is_cut));
      same_size = b.same_size ∙ a.same_size;
      same_pipe = b.same_pipe ∙ a.same_pipe;
    }

    IsReady-step : (more : ℕ) → IsReady s (length samples + more) → IsReady t more
    IsReady-step more v = record {
      made = v.made ∙ ap some (sym a.same_pipe);
      short = rw a.same_size a.is_cut.short;
      room =
          rw (a.same_size, a.queued, length-append s.audio_out_ch a.chunks)
            (omega (
              arith,
              v.room,
              cut_count s.audio_cache.chunk_size _ a.chunks t.audio_cache.buffer a.is_cut,
              length-append s.audio_cache.buffer samples,
              length-append s.audio_out_ch a.chunks,
            ));
    }

  pub frames_send :
      (sels : ℕ → Selects) (frames : List (List F.F32)) (s : AudioLoop F)
      → ((k : ℕ) → PrefersSend (sels k))
      → All Fine frames
      → IsReady s (length (resampled frames))
      → (t : AudioLoop F) × (process_frames F sels frames s ≡ some t)
        × Advances s (resampled frames) t
  unfolding process_frames
  frames_send sels [] s sends fine v = (s, refl, Advances-nothing s v.short)
  frames_send sels (frame ∷ frames) s sends fine v =
      let half = every_other frame in
      let split = length-append half (resampled frames) in
      let (t, e, a) =
        frame_sends (sels 0) frame s (sends 0) fine.0
          (record { made = v.made; short = v.short; room = omega (arith, v.room, split) }) in
      let (u, f, b) =
        frames_send (λ k. sels (suc k)) frames t (λ k. sends (suc k)) fine.1
          (IsReady-step s t half a (length (resampled frames))
            (record { made = v.made; short = v.short; room = omega (arith, v.room, split) })) in
      (u, rw e f, Advances-trans s t half a (resampled frames) u b)

  -- With a speaker's pipeline and less than a chunk buffered, while the context is live and the
  -- queue has room for all of it, no audio is lost: the frames are processed, and the chunks
  -- queued, with what stays buffered, are the earlier buffer and the frames' samples at half the
  -- rate, in order, each new chunk full and the rest short of one. This is under the IEEE 754 facts
  -- of `IsExact`, for frames of samples that are finite and not the negative zero.
  pub frames_faithful :
      (frames : List (List F.F32)) (s : AudioLoop F)
      → All Fine frames
      → IsReady s (length (resampled frames))
      → (t : AudioLoop F) × (chunks : List (List F.F32)) × (process_frames F (λ _. live) frames s
          ≡ some t)
        × (t.audio_out_ch ≡ s.audio_out_ch ++ chunks)
        × IsCut s.audio_cache.chunk_size
            (s.audio_cache.buffer ++ resampled frames)
            chunks
            t.audio_cache.buffer
  frames_faithful frames s fine v =
      let (t, e, a) = frames_send (λ _. live) frames s (λ k n. refl) fine v in
      (t, a.chunks, e, a.queued, a.is_cut)
