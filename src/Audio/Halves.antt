-- ===== src/Audio/Halves.antt =====
-- A fixed-point arithmetic that counts halves. It is exact for the values that occur, so it meets
-- `IsExact`.
use nc_kyutai_live_transcrip.Prelude.{arith, pos_part, refl, ℕ, ◌*◌, ◌+◌, ◌-◌, ◌/◌, ◌≡◌}
use nc_kyutai_live_transcrip.Audio.Floats.{Floats}
use nc_kyutai_live_transcrip.Audio.Pipeline.{Pipeline}
use nc_kyutai_live_transcrip.Audio.Pipeline.Halving.{IsExact}

abbrev pub halves : Floats
halves = record {
  F64 = ℕ;
  F32 = ℕ;
  of_nat = λ n. 2 * n;
  to_nat = λ x. x / 2;
  mul = λ x y. x * y / 2;
  div = λ x y. 2 * x / y;
  sub = λ x y. x - y;
  to_f32 = λ x. x;
  one = 1;
  add32 = λ x y. x + y;
  sub32 = λ x y. x - y;
  mul32 = λ x y. x * y;
  of_int16 = pos_part;
  scaled = λ x. x;
}

pub blend_lem : (n x y : ℕ) → x * (1 - (2 * n - 2 * n)) + y * (2 * n - 2 * n) ≡ x
blend_lem n x y = let z : 2 * n - 2 * n ≡ 0 = omega arith in rw z (omega arith)

unfoldable pub halves-IsExact : IsExact halves
halves-IsExact = record {
  IsPlain = λ _. Unit;
  half = 1;
  half_eq = refl;
  mul_half = λ n h. omega arith;
  div_half = λ n h. omega arith;
  whole = λ n h. omega arith;
  blend_zero = λ n x y h k. blend_lem n x y;
}

abbrev pub speaker_pipeline : Pipeline halves
speaker_pipeline = record {
  input_sample_rate = 48000;
  output_sample_rate = 24000;
  resampler = record { ratio = 1 };
}
