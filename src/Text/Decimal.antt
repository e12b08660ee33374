-- ===== src/Text/Decimal.antt =====
-- The verb `%d` of Go's package fmt, for numbers that are not negative.
use Prim.Native.Char.{code}
use nc_kyutai_live_transcrip.Prelude.{
  Bool-cases, String, ap, arith, if◌then◌else◌, inl, inr, ltb, refl, suc, sym, zero, ℕ, ◌%◌, ◌*◌,
  ◌+◌, ◌-◌, ◌/◌, ◌<◌, ◌∙◌, ◌≡◌,
}
use nc_kyutai_live_transcrip.Text.{join}

digit : ℕ → String
digit zero = "0"
digit (suc zero) = "1"
digit (suc (suc zero)) = "2"
digit (suc (suc (suc zero))) = "3"
digit (suc (suc (suc (suc zero)))) = "4"
digit (suc (suc (suc (suc (suc zero))))) = "5"
digit (suc (suc (suc (suc (suc (suc zero)))))) = "6"
digit (suc (suc (suc (suc (suc (suc (suc zero))))))) = "7"
digit (suc (suc (suc (suc (suc (suc (suc (suc zero)))))))) = "8"
digit (suc (suc (suc (suc (suc (suc (suc (suc (suc n))))))))) = "9"

-- The digits of a number below 10 ^ fuel
digits : ℕ → ℕ → String
unfolding digit
digits zero n = String.[]
digits (suc fuel) n =
    let front = digits fuel (n / 10) in if ltb n 10 then digit n else join front (digit (n % 10))

-- As many rounds as the number has are enough, and one for zero.
unfoldable pub decimal : ℕ → String
unfolding digits
decimal n = digits (n + 1) n

-- The number that a text of digits stands for, behind another
abbrev value_from : ℕ → String → ℕ
value_from acc String.[] = acc
value_from acc (String.◌∷◌ c s) = value_from (acc * 10 + (code c - 48)) s

value_from-join :
    (acc : ℕ) (s t : String) → value_from acc (join s t) ≡ value_from (value_from acc s) t
value_from-join acc String.[] t = refl
value_from-join acc (String.◌∷◌ c s) t = value_from-join (acc * 10 + (code c - 48)) s t

value_from-digit : (acc d : ℕ) → d < 10 → value_from acc (digit d) ≡ acc * 10 + d
unfolding digit
value_from-digit acc zero h = refl
value_from-digit acc (suc zero) h = refl
value_from-digit acc (suc (suc zero)) h = refl
value_from-digit acc (suc (suc (suc zero))) h = refl
value_from-digit acc (suc (suc (suc (suc zero)))) h = refl
value_from-digit acc (suc (suc (suc (suc (suc zero))))) h = refl
value_from-digit acc (suc (suc (suc (suc (suc (suc zero)))))) h = refl
value_from-digit acc (suc (suc (suc (suc (suc (suc (suc zero))))))) h = refl
value_from-digit acc (suc (suc (suc (suc (suc (suc (suc (suc zero)))))))) h = refl
value_from-digit acc (suc (suc (suc (suc (suc (suc (suc (suc (suc zero))))))))) h = refl
value_from-digit acc (suc (suc (suc (suc (suc (suc (suc (suc (suc (suc n)))))))))) h =
    absurd (omega arith)

value-digits : (fuel n : ℕ) → n < fuel → value_from 0 (digits fuel n) ≡ n
unfolding digits
value-digits zero n h = absurd (omega arith)
value-digits (suc fuel) n h = elim (Bool-cases (ltb n 10)) [
  | inl small ↦ rw (small, digits) (value_from-digit 0 n (ground arith) ∙ omega arith)
  | inr large ↦
      rw (large, digits)
        (value_from-join 0 (digits fuel (n / 10)) (digit (n % 10))
          ∙ value_from-digit _ (n % 10) (omega arith)
          ∙ ap (λ a. a * 10 + n % 10) (value-digits fuel (n / 10) (ground arith))
          ∙ omega arith)
]

-- A number can be read back from its digits,
pub value-decimal : (n : ℕ) → value_from 0 (decimal n) ≡ n
unfolding decimal
value-decimal n = value-digits (n + 1) n (omega arith)

-- so that two numbers with the same digits are equal.
pub decimal_inj : (n m : ℕ) → decimal n ≡ decimal m → n ≡ m
decimal_inj n m e = sym (value-decimal n) ∙ ap (value_from 0) e ∙ value-decimal m
