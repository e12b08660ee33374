-- ===== src/Audio/Floats.antt =====
-- Go's `float64` and `float32`, as far as pkg/audio/pipeline.go uses them.
use nc_kyutai_live_transcrip.Prelude.{ℕ, ℤ}

pub record Floats : Type 1 where
  pub F64 : Type 0
  pub F32 : Type 0
  -- `float64(n)` and `int(x)`, on values that are not negative
  pub of_nat : ℕ → F64
  pub to_nat : F64 → ℕ
  pub mul : F64 → F64 → F64
  pub div : F64 → F64 → F64
  pub sub : F64 → F64 → F64
  pub to_f32 : F64 → F32
  pub one : F32
  pub add32 : F32 → F32 → F32
  pub sub32 : F32 → F32 → F32
  pub mul32 : F32 → F32 → F32
  -- `float32(s)` of a 16-bit sample, and `x / 32768.0`
  pub of_int16 : ℤ → F32
  pub scaled : F32 → F32
