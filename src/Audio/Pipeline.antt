-- ===== src/Audio/Pipeline.antt =====
-- pkg/audio/pipeline.go: `Resampler` and `Pipeline`, without the goroutine of `Start`. Go's
-- floating point is a parameter; a read out of a slice's range is `none`.
pub mod Loop
pub mod Total
pub mod Halving
use nc_kyutai_live_transcrip.Prelude.{
  List, Option, [], get_elem?, if◌then◌else◌, is_positive, leb, length, map, none, pos, pos_part,
  some, suc, zero, ℕ, ℤ, ◌&&◌, ◌+◌, ◌-◌, ◌==◌, ◌>>=◌, ◌∷◌,
}
use nc_kyutai_live_transcrip.Audio.Floats.{Floats}

module _ (F : Floats) where
  open F use {
    F64, F32, of_nat, to_nat, mul, div, sub, to_f32, one, add32, sub32, mul32, of_int16, scaled,
  }

  pub record Resampler : Type 0 where
    pub ratio : F64

  -- `NewResampler`
  unfoldable pub new_resampler : ℕ → ℕ → Resampler
  new_resampler input_rate output_rate = record {
    ratio = div (of_nat output_rate) (of_nat input_rate);
  }

  -- `input[idx]*(1-float32(frac)) + input[idx+1]*float32(frac)`
  abbrev pub blend : F64 → F32 → F32 → F32
  blend frac x y = add32 (mul32 x (sub32 one (to_f32 frac))) (mul32 y (to_f32 frac))

  -- One round of the loop of `Resample`: the output sample at `i`.
  unfoldable pub output_at : Resampler → List F32 → ℕ → Option F32
  output_at r input i =
      let pos = div (of_nat i) r.ratio in
      let idx = to_nat pos in
      if leb (length input) (idx + 1)
      then get_elem? input (length input - 1)
      else get_elem? input idx >>= λ x.
          get_elem? input (idx + 1) >>= λ y. some (blend (sub pos (of_nat idx)) x y)

  -- The loop from round `i` on, with the given number of rounds left.
  unfoldable pub output_from : Resampler → List F32 → ℕ → ℕ → Option (List F32)
  output_from r input i zero = some []
  output_from r input i (suc left) = do
    x ← output_at r input i
    xs ← output_from r input (i + 1) left
    some (x ∷ xs)

  -- `Resample`
  unfoldable pub resample : Resampler → List F32 → Option (List F32)
  resample r [] = some []
  resample r (x ∷ xs) =
      let output_size = to_nat (mul (of_nat (length (x ∷ xs))) r.ratio) in
      if output_size == 0 then some [] else output_from r (x ∷ xs) 0 output_size

  pub record Pipeline : Type 0 where
    pub input_sample_rate : ℕ
    pub output_sample_rate : ℕ
    pub resampler : Resampler

  -- `NewPipeline`: `none` is its error.
  unfoldable pub new_pipeline : ℤ → ℤ → Option Pipeline
  new_pipeline input_rate output_rate =
      if is_positive input_rate && is_positive output_rate
      then some (record {
        input_sample_rate = pos_part input_rate;
        output_sample_rate = pos_part output_rate;
        resampler = new_resampler (pos_part input_rate) (pos_part output_rate);
      })
      else none

  -- `ProcessFrame`
  unfoldable pub process_frame : Pipeline → List F32 → Option (List F32)
  process_frame p [] = some []
  process_frame p (x ∷ xs) =
      if p.input_sample_rate == p.output_sample_rate
      then some (x ∷ xs)
      else resample p.resampler (x ∷ xs)

  -- `int16ToFloat32`
  unfoldable pub int16_to_float32 : List ℤ → List F32
  int16_to_float32 = map (λ s. scaled (of_int16 s))

  -- `processFrame`, on raw PCM
  unfoldable pub process_pcm_frame : Pipeline → List ℤ → Option (List F32)
  process_pcm_frame p frame =
      let float32_frame = int16_to_float32 frame in
      if p.input_sample_rate == p.output_sample_rate
      then some float32_frame
      else resample p.resampler float32_frame
