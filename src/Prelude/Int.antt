-- ===== src/Prelude/Int.antt =====
-- Go's `int` as a signed integer over the native numbers; `negsuc n` is -(n + 1).
use Prim.Native.Nat.{ℕ, ◌/◌, ◌%◌, ◌^◌}
use mathlib.Core.Bool.{Bool, false, not}
use nc_kyutai_live_transcrip.Prelude.Tests.{◌==◌}

pub data ℤ : Type 0 where
  pos : ℕ → ℤ
  negsuc : ℕ → ℤ

-- `n > 0`
abbrev pub is_positive : ℤ → Bool
is_positive (pos n) = not (n == 0)
is_positive (negsuc n) = false

abbrev pub pos_part : ℤ → ℕ
pos_part (pos n) = n
pos_part (negsuc n) = 0

-- Bit `k` of the two's complement representation.
abbrev pub bit_is_set : ℕ → ℤ → Bool
bit_is_set k (pos n) = (n / 2 ^ k) % 2 == 1
bit_is_set k (negsuc n) = (n / 2 ^ k) % 2 == 0

abbrev pub is_zero : ℤ → Bool
is_zero (pos n) = n == 0
is_zero (negsuc n) = false
