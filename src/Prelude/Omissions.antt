-- ===== src/Prelude/Omissions.antt =====
-- Lists with some items left out, as what a channel that drops lets through.
use Prim.Native.Nat.{ℕ}
use mathlib.Core.Path.{◌≡◌, sym}
use mathlib.Core.Logic.{inl, inr}
use mathlib.Core.List.{List, [], ◌∷◌, ◌++◌}
use nc_kyutai_live_transcrip.Prelude.Tests.{leb, Bool-cases}
use nc_kyutai_live_transcrip.Prelude.Lists.{length, concat}
use nc_kyutai_live_transcrip.Prelude.Channels.{offer}

-- The first list is the second with some items left out.
pub data LeavesOut {ℓ} {A : Type ℓ} : List A → List A → Type ℓ where
  nothing : LeavesOut [] []
  keeps : {x : A} {xs ys : List A} → LeavesOut xs ys → LeavesOut (x ∷ xs) (x ∷ ys)
  skips : {y : A} {xs ys : List A} → LeavesOut xs ys → LeavesOut xs (y ∷ ys)

module _ {ℓ} {A : Type ℓ} where
  pub LeavesOut-refl : (xs : List A) → LeavesOut xs xs
  LeavesOut-refl [] = nothing
  LeavesOut-refl (x ∷ xs) = keeps (LeavesOut-refl xs)

  pub LeavesOut-none : (ys : List A) → LeavesOut [] ys
  LeavesOut-none [] = nothing
  LeavesOut-none (y ∷ ys) = skips (LeavesOut-none ys)

  pub LeavesOut-more : (xs ys : List A) → LeavesOut xs (xs ++ ys)
  LeavesOut-more [] ys = LeavesOut-none ys
  LeavesOut-more (x ∷ xs) ys = keeps (LeavesOut-more xs ys)

  pub LeavesOut-append :
      {xs ys us vs : List A} → LeavesOut xs ys → LeavesOut us vs → LeavesOut (xs ++ us) (ys ++ vs)
  LeavesOut-append nothing q = q
  LeavesOut-append (keeps p) q = keeps (LeavesOut-append p q)
  LeavesOut-append (skips p) q = skips (LeavesOut-append p q)

  pub LeavesOut-trans : {xs ys zs : List A} → LeavesOut xs ys → LeavesOut ys zs → LeavesOut xs zs
  LeavesOut-trans nothing q = q
  LeavesOut-trans p (skips q) = skips (LeavesOut-trans p q)
  LeavesOut-trans (keeps p) (keeps q) = keeps (LeavesOut-trans p q)
  LeavesOut-trans (skips p) (keeps q) = skips (LeavesOut-trans p q)

  -- A send that drops the value when the channel is full
  pub LeavesOut-offer : (cap : ℕ) (xs : List A) (a : A) → LeavesOut (offer cap xs a) (xs ++ a ∷ [])
  LeavesOut-offer cap xs a = elim (Bool-cases (leb cap (length xs))) [
    | inl full ↦ rw full (LeavesOut-more xs (a ∷ []))
    | inr place ↦ rw place (LeavesOut-refl (xs ++ a ∷ []))
  ]

  pub LeavesOut-concat :
      {xss yss : List (List A)} → LeavesOut xss yss → LeavesOut (concat xss) (concat yss)
  LeavesOut-concat nothing = nothing
  LeavesOut-concat (keeps p) = LeavesOut-append (LeavesOut-refl _) (LeavesOut-concat p)
  LeavesOut-concat (skips p) = LeavesOut-append (LeavesOut-none _) (LeavesOut-concat p)

  pub LeavesOut-between :
      {xs us ys vs : List A} → xs ≡ us → LeavesOut us ys → ys ≡ vs → LeavesOut xs vs
  LeavesOut-between front p back = rw (front, sym back) p
