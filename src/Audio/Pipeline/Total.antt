-- ===== src/Audio/Pipeline/Total.antt =====
-- `Resample` reads only inside its input, whatever the rates and the rounding.
use nc_kyutai_live_transcrip.Prelude.{
  Bool-cases, List, [], ap, arith, get_elem?, inl, inr, leb, leb_false→lt, length, refl, some, suc,
  zero, ℕ, ◌+◌, ◌-◌, ◌<◌, ◌==◌, ◌∷◌, ◌≡◌,
}
use nc_kyutai_live_transcrip.Audio.Floats.{Floats}
use nc_kyutai_live_transcrip.Audio.Pipeline.{Resampler, blend, output_at, output_from, resample}

get_elem?-some {ℓ} :
    {A : Type ℓ} (xs : List A) (i : ℕ) → i < length xs → (x : A) × (get_elem? xs i ≡ some x)
get_elem?-some [] i h = elim h [ ]
get_elem?-some (x ∷ xs) zero h = (x, refl)
get_elem?-some (x ∷ xs) (suc i) h = get_elem?-some xs i (omega arith)

module _ (F : Floats) where
  open F use {F64, F32, of_nat, to_nat, mul, div, sub}

  output_at_total :
      (r : Resampler F) (input : List F32) (i : ℕ)
      → 0 < length input
      → (x : F32) × (output_at F r input i ≡ some x)
  unfolding output_at
  output_at_total r input i h =
      elim (Bool-cases (leb (length input) (to_nat (div (of_nat i) r.ratio) + 1))) [
        | inl last ↦
            let (x, e) = get_elem?-some input (length input - 1) (omega arith) in (x, rw last e)
        | inr inside ↦
            let idx = to_nat (div (of_nat i) r.ratio) in
            let (x, e) = get_elem?-some input idx (omega (arith, leb_false→lt _ _ inside)) in
            let (y, f) = get_elem?-some input (idx + 1) (leb_false→lt _ _ inside) in
            (blend F (sub (div (of_nat i) r.ratio) (of_nat idx)) x y, rw inside (rw e (rw f refl)))
      ]

  output_from_total :
      (r : Resampler F) (input : List F32) (i left : ℕ)
      → 0 < length input
      → (out : List F32) × (output_from F r input i left ≡ some out) × (length out ≡ left)
  unfolding output_from
  output_from_total r input i zero h = ([], refl, refl)
  output_from_total r input i (suc left) h =
      let (x, e) = output_at_total r input i h in
      let (xs, f, n) = output_from_total r input (i + 1) left h in
      (x ∷ xs, rw e (rw f refl), ap suc n)

  -- The number of samples that `Resample` computes for an input.
  abbrev pub resampled_length : Resampler F → ℕ → ℕ
  resampled_length r zero = 0
  resampled_length r (suc n) = to_nat (mul (of_nat (suc n)) r.ratio)

  -- Whatever the two rates and however the floating point rounds, `Resample` never reads out of
  -- its input's range: it returns, and with as many samples as it computed from the ratio.
  pub resample_total :
      (r : Resampler F) (input : List F32)
      → (out : List F32) × (resample F r input ≡ some out)
        × (length out ≡ resampled_length r (length input))
  unfolding resample
  resample_total r [] = ([], refl, refl)
  resample_total r (x ∷ xs) =
      elim (Bool-cases (to_nat (mul (of_nat (length (x ∷ xs))) r.ratio) == 0)) [
        | inl z ↦ ([], rw z refl, ground arith)
        | inr n ↦
            let (out, e, k) =
              output_from_total r (x ∷ xs) 0 (to_nat (mul (of_nat (length (x ∷ xs))) r.ratio))
                (omega arith) in
            (out, rw n e, k)
      ]
