-- ===== src/Prelude/Channels.antt =====
-- A buffered Go channel, as the list of what it holds, oldest first.
use Prim.Native.Nat.{ℕ, zero, suc, ◌≤◌}
use mathlib.Core.Path.{◌≡◌, refl, sym, ap, ◌∙◌}
use mathlib.Core.Logic.{inl, inr}
use mathlib.Core.List.{List, [], ◌∷◌, ◌++◌, append_assoc}
use native.Mathlib.Omega.{arith}
use nc_kyutai_live_transcrip.Prelude.Tests.{if◌then◌else◌, leb, Bool-cases}
use nc_kyutai_live_transcrip.Prelude.Lists.{length, take, take-append, length-append}

module _ {ℓ} {A : Type ℓ} where
  -- A send that drops the value when the channel is full.
  abbrev pub offer : ℕ → List A → A → List A
  offer cap queue a = if leb cap (length queue) then queue else queue ++ a ∷ []

  pub take_all : (n : ℕ) (xs : List A) → length xs ≤ n → take n xs ≡ xs
  take_all zero [] h = refl
  take_all zero (x ∷ xs) h = absurd (omega arith)
  take_all (suc n) [] h = refl
  take_all (suc n) (x ∷ xs) h = ap (◌∷◌ x) (take_all n xs (omega arith))

  -- A send that drops on a full channel leaves the oldest values.
  pub take-offer :
      (cap : ℕ) (xs : List A) (a : A) (ys : List A)
      → length xs ≤ cap
      → take cap (offer cap xs a ++ ys) ≡ take cap (xs ++ a ∷ ys)
  take-offer cap xs a ys h = elim (Bool-cases (leb cap (length xs))) [
    | inl full ↦
        let reached : cap ≤ length xs = ground arith in
        rw full (take-append cap xs ys reached ∙ sym (take-append cap xs (a ∷ ys) reached))
    | inr room ↦ rw room (ap (take cap) (append_assoc xs (a ∷ []) ys))
  ]

  pub length-offer :
      (cap : ℕ) (xs : List A) (a : A) → length xs ≤ cap → length (offer cap xs a) ≤ cap
  length-offer cap xs a h = ground (arith, length-append xs (a ∷ []))
