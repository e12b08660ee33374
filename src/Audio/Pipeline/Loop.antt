-- ===== src/Audio/Pipeline/Loop.antt =====
-- pkg/audio/pipeline.go: `processLoop`, the goroutine that `Start` runs, over frames of PCM
-- samples, after `SetInputChannel`.
use nc_kyutai_live_transcrip.Prelude.{
  Bool, Bool-cases, List, Option, [], ap, append-nil, false, if◌then◌else◌, inl, inr, length,
  length-offer, map, none, offer, refl, some, sym, take, take-offer, take_all, ℕ, ℤ, ◌++◌, ◌==◌,
  ◌>>=◌, ◌∙◌, ◌∷◌, ◌≡◌, ◌≤◌,
}
use nc_kyutai_live_transcrip.Audio.Floats.{Floats}
use nc_kyutai_live_transcrip.Audio.Pipeline.{Pipeline, int16_to_float32, process_pcm_frame}
use nc_kyutai_live_transcrip.Audio.Pipeline.Total.{resample_total}

abbrev pub output_cap : ℕ
output_cap = 10

-- What a round sees of the close channel: it is closed at the top of the round, or the select of
-- the round's send takes it.
pub record Look : Type 0 where
  pub closed : Bool
  pub quits : Bool

abbrev pub running : Look
running = record { closed = false; quits = false }

module _ (F : Floats) where
  open F use {F32}

  -- `processLoop` on the frames that come, and on what the output channel holds; `none` is a panic.
  unfoldable pub process_loop :
      Pipeline F → List (Look × List ℤ) → List (List F32) → Option (List (List F32))
  process_loop p [] queue = some queue
  process_loop p ((look, frame) ∷ rest) queue =
      if look.closed
      then some queue
      else if length frame == 0
      then process_loop p rest queue
      else process_pcm_frame F p frame >>= λ out.
          if look.quits then some queue else process_loop p rest (offer output_cap queue out)

  -- The frames that are not empty, processed one by one
  abbrev pub processed : Pipeline F → List (List ℤ) → Option (List (List F32))
  processed p [] = some []
  processed p (frame ∷ rest) =
      let others = processed p rest in
      if length frame == 0
      then others
      else process_pcm_frame F p frame >>= λ out. others >>= λ outs. some (out ∷ outs)

  pcm_total :
      (p : Pipeline F) (frame : List ℤ)
      → (out : List F32) × (process_pcm_frame F p frame ≡ some out)
  unfolding process_pcm_frame
  pcm_total p frame = elim (Bool-cases (p.input_sample_rate == p.output_sample_rate)) [
    | inl same_rate ↦ (int16_to_float32 F frame, rw same_rate refl)
    | inr other ↦
        let (out, e, k) = resample_total F p.resampler (int16_to_float32 F frame) in
        (out, rw other e)
  ]

  same_queue :
      (out : List F32) (queue : List (List F32))
      → length queue ≤ output_cap
      → (others : Option (List (List F32)))
      → (others >>= λ outs. some (take output_cap (offer output_cap queue out ++ outs))) ≡ (
          (others >>= λ outs. some (out ∷ outs)) >>= λ outs. some (take output_cap (queue ++ outs)))
  same_queue out queue h none = refl
  same_queue out queue h (some outs) = ap some (take-offer output_cap queue out outs h)

  -- While the pipeline is not closed, and nothing is taken from its output channel, the channel
  -- then holds the oldest ten of what it held and of the processed frames, in order, empty frames
  -- left out: each frame comes through whole while there is room, and the newest are dropped
  -- without it.
  pub process_loop-oldest :
      (p : Pipeline F) (frames : List (List ℤ)) (queue : List (List F32))
      → length queue ≤ output_cap
      → process_loop p (map (λ frame. (running, frame)) frames) queue
        ≡ (processed p frames >>= λ outs. some (take output_cap (queue ++ outs)))
  unfolding process_loop
  process_loop-oldest p [] queue h =
      ap some (sym (ap (take output_cap) (append-nil queue) ∙ take_all output_cap queue h))
  process_loop-oldest p (frame ∷ rest) queue h = elim (Bool-cases (length frame == 0)) [
    | inl empty ↦ rw empty (process_loop-oldest p rest queue h)
    | inr full ↦
        let (out, made) = pcm_total p frame in
        let ih =
          process_loop-oldest p rest (offer output_cap queue out)
            (length-offer output_cap queue out h) in
        rw full (rw (made, process_loop) (ih ∙ same_queue out queue h (processed p rest)))
  ]
