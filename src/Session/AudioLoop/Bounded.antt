-- ===== src/Session/AudioLoop/Bounded.antt =====
-- The audio goroutine always goes on, and its queue stays within its capacity.
use nc_kyutai_live_transcrip.Prelude.{
  Bool-cases, List, [], inl, inr, leb, length, length-offer, offer, refl, some, suc, ℕ, ◌+◌, ◌<◌,
  ◌==◌, ◌||◌, ◌∷◌, ◌≡◌, ◌≤◌,
}
use nc_kyutai_live_transcrip.Audio.Floats.{Floats}
use nc_kyutai_live_transcrip.Audio.ChunkBuffer.{flush}
use nc_kyutai_live_transcrip.Audio.ChunkBuffer.Exact.{add-IsCut}
use nc_kyutai_live_transcrip.Audio.Pipeline.{Pipeline, process_frame}
use nc_kyutai_live_transcrip.Audio.Pipeline.Total.{resample_total}
use nc_kyutai_live_transcrip.Session.AudioLoop.{
  Selects, later, takes_done, audio_out_cap, enqueue_audio_chunks, send_tail, AudioLoop,
  buffer_and_enqueue, process_input_frame, process_frames, drain_audio_input,
  flush_audio_cache_tail, finish,
}

module _ {ℓ} {A : Type ℓ} where
  pub length-enqueue :
      (sel : Selects) (chunks : List (List A)) (out : List (List A))
      → length out ≤ audio_out_cap
      → length (enqueue_audio_chunks sel chunks out) ≤ audio_out_cap
  unfolding enqueue_audio_chunks
  length-enqueue sel [] out h = h
  length-enqueue sel (chunk ∷ chunks) out h =
      let rest =
        length-enqueue (later sel) chunks (offer audio_out_cap out chunk)
          (length-offer audio_out_cap out chunk h) in
      elim (Bool-cases (takes_done sel 0 (leb audio_out_cap (length out)))) [
        | inl quit ↦ rw quit h
        | inr on ↦ rw on rest
      ]

  pub length-send_tail :
      (sel : Selects) (tail : List A) (out : List (List A))
      → length out ≤ audio_out_cap
      → length (send_tail sel tail out) ≤ audio_out_cap
  unfolding send_tail
  length-send_tail sel tail out h =
      elim (Bool-cases ((length tail == 0) || takes_done sel 0 (leb audio_out_cap (length out)))) [
        | inl quit ↦ rw quit h
        | inr on ↦ rw on (length-offer audio_out_cap out tail h)
      ]

module _ (F : Floats) where
  open F use {F32}

  pub process_frame_total :
      (p : Pipeline F) (frame : List F32) → (out : List F32) × (process_frame F p frame ≡ some out)
  unfolding process_frame
  process_frame_total p [] = ([], refl)
  process_frame_total p (x ∷ xs) = elim (Bool-cases (p.input_sample_rate == p.output_sample_rate)) [
    | inl same ↦ (x ∷ xs, rw same refl)
    | inr differ ↦ let (out, e, n) = resample_total F p.resampler (x ∷ xs) in (out, rw differ e)
  ]

  -- The queue fits, a chunk holds a sample, and less than a chunk is buffered.
  pub record IsSound (s : AudioLoop F) : Type 0 where
    pub queued : length s.audio_out_ch ≤ audio_out_cap
    pub positive : 0 < s.audio_cache.chunk_size
    pub short : length s.audio_cache.buffer < s.audio_cache.chunk_size

  buffer_and_enqueue-IsSound :
      (sel : Selects) (xs : List F32) (s : AudioLoop F)
      → IsSound s
      → (s' : AudioLoop F) × (buffer_and_enqueue F sel xs s ≡ some s') × IsSound s'
  unfolding buffer_and_enqueue
  buffer_and_enqueue-IsSound sel xs s v =
      let (chunks, rest, e, c) = add-IsCut s.audio_cache xs v.positive in
      (
        record s {
          audio_cache = record s.audio_cache { buffer = rest };
          audio_out_ch = enqueue_audio_chunks sel chunks s.audio_out_ch;
        },
        rw e refl,
        record {
          queued = length-enqueue sel chunks s.audio_out_ch v.queued;
          positive = v.positive;
          short = c.short;
        },
      )

  process_input_frame-IsSound :
      (sel : Selects) (frame : List F32) (s : AudioLoop F)
      → IsSound s
      → (s' : AudioLoop F) × (process_input_frame F sel frame s ≡ some s') × IsSound s'
  unfolding process_input_frame
  process_input_frame-IsSound sel [] s v = (s, refl, v)
  process_input_frame-IsSound sel (x ∷ xs) s v =
      let (out, e) = process_frame_total s.audio_pipe (x ∷ xs) in
      let (s', f, w) =
        buffer_and_enqueue-IsSound sel out (record s { frame_count = s.frame_count + 1 })
          (record { queued = v.queued; positive = v.positive; short = v.short }) in
      (s', rw e f, w)

  pub process_frames-IsSound :
      (sels : ℕ → Selects) (frames : List (List F32)) (s : AudioLoop F)
      → IsSound s
      → (s' : AudioLoop F) × (process_frames F sels frames s ≡ some s') × IsSound s'
  unfolding process_frames
  process_frames-IsSound sels [] s v = (s, refl, v)
  process_frames-IsSound sels (frame ∷ frames) s v =
      let (s', e, w) = process_input_frame-IsSound (sels 0) frame s v in
      let (s'', f, u) = process_frames-IsSound (λ k. sels (suc k)) frames s' w in (s'', rw e f, u)

  -- From a state with a positive chunk size, less than a chunk buffered and at most 25 chunks
  -- queued: whatever frames arrive, whatever the floating point does and however each select falls,
  -- the audio goroutine processes every frame without a panic, and after the context is done it
  -- drains and flushes and ends. At most 25 chunks are queued at the end, and nothing is left
  -- buffered.
  pub finish_total :
      (before after : ℕ → Selects) (sel : Selects) (frames : List (List F32)) (s : AudioLoop F)
      → IsSound s
      → (t : AudioLoop F) × (u : AudioLoop F) × (process_frames F before frames s ≡ some t)
        × (finish F after sel t ≡ some u)
        × (length u.audio_out_ch ≤ audio_out_cap)
        × (u.audio_cache.buffer ≡ [])
  unfolding finish drain_audio_input flush_audio_cache_tail flush
  finish_total before after sel frames s v =
      let (t, e, w) = process_frames-IsSound before frames s v in
      let (t', f, w') =
        process_frames-IsSound after t.audio_input_ch (record t { audio_input_ch = [] })
          (record { queued = w.queued; positive = w.positive; short = w.short }) in
      (
        t,
        record t' {
          audio_cache = record t'.audio_cache { buffer = [] };
          audio_out_ch = send_tail sel t'.audio_cache.buffer t'.audio_out_ch;
        },
        e,
        rw f refl,
        length-send_tail sel t'.audio_cache.buffer t'.audio_out_ch w'.queued,
        refl,
      )
