-- ===== src/Audio/Pipeline/Halving.antt =====
-- `Resample` from 48 kHz to 24 kHz, the rates that the session uses.
use native.Mathlib.Numerals.{add-one}
use nc_kyutai_live_transcrip.Prelude.{
  All, List, [], ap, arith, drop, false, get_elem?, leb, length, length-drop, lt→leb_false, pos,
  refl, some, suc, zero, ℕ, ◌%◌, ◌*◌, ◌++◌, ◌+◌, ◌/◌, ◌<◌, ◌==◌, ◌∷◌, ◌≡◌,
}
use nc_kyutai_live_transcrip.Audio.Floats.{Floats}
use nc_kyutai_live_transcrip.Audio.Pipeline.{
  Resampler, new_resampler, blend, output_at, output_from, resample, Pipeline, new_pipeline,
  process_frame,
}

-- The samples at the even positions that have a successor.
abbrev pub every_other {ℓ} : {A : Type ℓ} → List A → List A
every_other [] = []
every_other (x ∷ []) = []
every_other (x ∷ y ∷ rest) = x ∷ every_other rest

-- A `float64` counts exactly below 2^53.
abbrev pub exact_below : ℕ
exact_below = 4503599627370496

-- IEEE 754: halving and doubling an exact integer is exact, and a blend with fraction 0 of two
-- plain samples is the first. A sample is plain if it is finite and not the negative zero, of which
-- the blend `(-0)*1 + y*0` would make a positive one.
pub record IsExact (F : Floats) : Type 1 where
  pub IsPlain : F.F32 → Type 0
  pub half : F.F64
  pub half_eq : F.div (F.of_nat 24000) (F.of_nat 48000) ≡ half
  pub mul_half : (n : ℕ) → n < exact_below → F.to_nat (F.mul (F.of_nat n) half) ≡ n / 2
  pub div_half : (n : ℕ) → n < exact_below → F.div (F.of_nat n) half ≡ F.of_nat (2 * n)
  pub whole : (n : ℕ) → n < 2 * exact_below → F.to_nat (F.of_nat n) ≡ n
  pub blend_zero :
      (n : ℕ) (x y : F.F32)
      → IsPlain x
      → IsPlain y
      → blend F (F.sub (F.of_nat n) (F.of_nat n)) x y ≡ x

module _ {ℓ} {A : Type ℓ} where
  get_elem?-drop :
      (n : ℕ) (xs : List A) {y : A} {ys : List A} → drop n xs ≡ y ∷ ys → get_elem? xs n ≡ some y
  get_elem?-drop zero [] h = cc
  get_elem?-drop zero (x ∷ xs) h = cc
  get_elem?-drop (suc n) [] h = cc
  get_elem?-drop (suc n) (x ∷ xs) h = get_elem?-drop n xs h

  drop-suc : (n : ℕ) (xs : List A) {y : A} {ys : List A} → drop n xs ≡ y ∷ ys → drop (suc n) xs ≡ ys
  drop-suc zero [] h = cc
  drop-suc zero (x ∷ xs) h = cc
  drop-suc (suc n) [] h = cc
  drop-suc (suc n) (x ∷ xs) h = drop-suc n xs h

module _ (F : Floats) (E : IsExact F) where
  halver : Resampler F
  halver = record { ratio = E.half }

  output_at-halver :
      (input : List F.F32) (i : ℕ) {x y : F.F32} {rest : List F.F32}
      → drop (2 * i) input ≡ x ∷ y ∷ rest
      → i < exact_below
      → E.IsPlain x
      → E.IsPlain y
      → output_at F halver input i ≡ some x
  unfolding output_at halver
  output_at-halver input i {x} {y} {rest} h small plain plain' =
      let inside : leb (length input) (2 * i + 1) ≡ false =
        lt→leb_false (length input) (2 * i + 1)
          (omega (arith, ap length h, length-drop (2 * i) input)) in
      let first = get_elem?-drop (2 * i) input h in
      let second : get_elem? input (2 * i + 1) ≡ some y =
        rw (add-one (2 * i)) (get_elem?-drop (suc (2 * i)) input (drop-suc (2 * i) input h)) in
      rw (E.div_half i small, E.whole (2 * i) (omega arith), inside, first, second)
        (ap some (E.blend_zero (2 * i) x y plain plain'))

  output_from-halver :
      (input rest : List F.F32) (i : ℕ)
      → drop (2 * i) input ≡ rest
      → i + length rest < exact_below
      → All E.IsPlain rest
      → output_from F halver input i (length rest / 2) ≡ some (every_other rest)
  unfolding output_from
  output_from-halver input [] i h small plain = refl
  output_from-halver input (x ∷ []) i h small plain = refl
  output_from-halver input (x ∷ y ∷ rest) i h small plain =
      let half : suc (suc (length rest)) / 2 ≡ suc (length rest / 2) = omega arith in
      let later : drop (2 * (i + 1)) input ≡ rest =
        let twice : 2 * (i + 1) ≡ suc (suc (2 * i)) = omega arith in
        rw twice (drop-suc (suc (2 * i)) input (drop-suc (2 * i) input h)) in
      rw (half, output_from)
        (rw (output_at-halver input i h (omega arith) plain.0 plain.1.0)
          (rw (output_from-halver input rest (i + 1) later (omega arith) plain.1.1) refl))

  -- From 48 kHz to 24 kHz, under the IEEE 754 facts of `IsExact` and for inputs of plain samples
  -- of fewer than 2^52 of them, `Resample` returns the samples at the even positions, the last of
  -- an odd number left out: no output sample mixes two input samples.
  pub resample_halves :
      (input : List F.F32)
      → length input < exact_below
      → All E.IsPlain input
      → resample F (new_resampler F 48000 24000) input ≡ some (every_other input)
  unfolding resample new_resampler halver
  resample_halves input small plain = rw E.half_eq (go input small plain)
    where
      go :
          (input : List F.F32)
          → length input < exact_below
          → All E.IsPlain input
          → resample F halver input ≡ some (every_other input)
      go [] small plain = refl
      go (x ∷ []) small plain = rw (E.mul_half 1 small) refl
      go (x ∷ y ∷ rest) small plain =
          let some_out : (suc (suc (length rest)) / 2 == 0) ≡ false = ground arith in
          rw (E.mul_half (suc (suc (length rest))) small) (
            rw some_out
              (output_from-halver (x ∷ y ∷ rest) (x ∷ y ∷ rest) 0 refl (omega arith) plain))

every_other-append {ℓ} :
    {A : Type ℓ} (xs ys : List A)
    → length xs % 2 ≡ 0
    → every_other (xs ++ ys) ≡ every_other xs ++ every_other ys
every_other-append [] ys h = refl
every_other-append (x ∷ []) ys h = absurd (omega arith)
every_other-append (x ∷ y ∷ rest) ys h = ap (◌∷◌ x) (every_other-append rest ys (omega arith))

module _ (F : Floats) (E : IsExact F) where
  -- The pipeline that `NewPipeline` makes for a speaker, from 48 kHz to 24 kHz: under the IEEE 754
  -- facts of `IsExact` and for a frame of plain samples of fewer than 2^52 of them, its
  -- `ProcessFrame` returns the samples at the even positions.
  pub process_frame_halves :
      (p : Pipeline F) (frame : List F.F32)
      → new_pipeline F (pos 48000) (pos 24000) ≡ some p
      → length frame < exact_below
      → All E.IsPlain frame
      → process_frame F p frame ≡ some (every_other frame)
  unfolding new_pipeline process_frame
  process_frame_halves p [] made small plain = refl
  process_frame_halves p (x ∷ xs) made small plain =
      rw (← made_path) (resample_halves F E (x ∷ xs) small plain)
    where
      made_path :
          record {
            input_sample_rate = 48000;
            output_sample_rate = 24000;
            resampler = new_resampler F 48000 24000;
          }
          ≡ p
      made_path = cc
