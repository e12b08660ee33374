-- ===== src/Prelude/Maps.antt =====
-- A Go map with string keys, as an association list in which a key stands at most once.
use Prim.Native.Nat.{◌+◌, ◌≤◌}
use Prim.Native.String.{String}
use mathlib.Core.Path.{◌≡◌, refl}
use mathlib.Core.Logic.{◌⊎◌, inl, inr}
use mathlib.Core.Bool.{Bool, true, false}
use mathlib.Core.Option.{Option, none, some}
use mathlib.Core.List.{List, [], ◌∷◌}
use native.Mathlib.Omega.{arith}
use text.Mathlib.Text.{◌==◌ as str_eq}
use text.Mathlib.TextEquality.{eq_iff}
use text.Mathlib.TextPositions.{eq_refl}
use nc_kyutai_live_transcrip.Prelude.Tests.{if◌then◌else◌, Bool-cases}
use nc_kyutai_live_transcrip.Prelude.Lists.{length}

abbrev pub Dict {ℓ} : Type ℓ → Type ℓ
Dict V = List (String × V)

abbrev pub is_some {ℓ} : {A : Type ℓ} → Option A → Bool
is_some none = false
is_some (some a) = true

module _ {ℓ} {V : Type ℓ} where
  -- `v, ok := m[key]`
  unfoldable pub lookup : String → Dict V → Option V
  lookup key [] = none
  lookup key ((first, value) ∷ rest) = if str_eq first key then some value else lookup key rest

  -- `m[key] = new`
  unfoldable pub insert : String → V → Dict V → Dict V
  insert key new [] = (key, new) ∷ []
  insert key new ((first, old) ∷ rest) =
      if str_eq first key then (key, new) ∷ rest else (first, old) ∷ insert key new rest

  -- `delete(m, key)`
  unfoldable pub delete : String → Dict V → Dict V
  delete key [] = []
  delete key ((first, value) ∷ rest) =
      let others = delete key rest in if str_eq first key then others else (first, value) ∷ others

  -- `_, ok := m[key]`
  abbrev pub has : String → Dict V → Bool
  has key m = is_some (lookup key m)

  unfoldable pub keys : Dict V → List String
  keys [] = []
  keys ((first, value) ∷ rest) = first ∷ keys rest

  pub lookup-insert :
      (key asked : String) (new : V) (m : Dict V)
      → lookup asked (insert key new m) ≡ (if str_eq key asked then some new else lookup asked m)
  unfolding lookup insert
  lookup-insert key asked new [] = refl
  lookup-insert key asked new ((first, old) ∷ rest) = ground (
    arith,
    lookup-insert key asked new rest,
    eq_iff first key,
    eq_iff first asked,
    eq_iff key asked,
  )

  pub lookup-delete :
      (key asked : String) (m : Dict V)
      → lookup asked (delete key m) ≡ (if str_eq key asked then none else lookup asked m)
  unfolding lookup delete
  lookup-delete key asked [] = ground arith
  lookup-delete key asked ((first, old) ∷ rest) =
      ground (
        arith,
        lookup-delete key asked rest,
        eq_iff first key,
        eq_iff first asked,
        eq_iff key asked,
      )

  -- A new key makes the map one longer.
  pub length-insert_new :
      (k : String) (v : V) (m : Dict V) → lookup k m ≡ none → length (insert k v m) ≡ length m + 1
  unfolding lookup insert
  length-insert_new k v [] h = omega arith
  length-insert_new k v ((i, w) ∷ m) h = ground (arith, length-insert_new k v m)

  pub length-delete : (k : String) (m : Dict V) → length (delete k m) ≤ length m
  unfolding delete
  length-delete k [] = omega arith
  length-delete k ((i, w) ∷ m) = ground (arith, length-delete k m)

pub has-false {ℓ} : {V : Type ℓ} (k : String) (m : Dict V) → has k m ≡ false → lookup k m ≡ none
has-false k m h = ground arith

-- The key stands in the list.
abbrev pub Listed : String → List String → Type 0
Listed k [] = ⊥
Listed k (j ∷ ks) = (j ≡ k) ⊎ Listed k ks

module _ {ℓ} {V : Type ℓ} where
  pub Listed-keys : (k : String) (m : Dict V) → has k m ≡ true → Listed k (keys m)
  unfolding lookup keys
  Listed-keys k [] h = cc
  Listed-keys k ((j, v) ∷ m) h = elim (Bool-cases (str_eq j k)) [
    | inl same ↦ inl ((eq_iff j k).0 same)
    | inr other ↦ inr (Listed-keys k m (rw (other, lookup) at h))
  ]

  pub no_keys : (m : Dict V) → ((k : String) → has k m ≡ false) → m ≡ []
  unfolding lookup
  no_keys [] h = refl
  no_keys ((j, v) ∷ m) h = absurd (ground (arith, h j, eq_refl j))

pub has_empty {ℓ} : {V : Type ℓ} (s : String) (m : Dict V) → m ≡ [] → has s m ≡ false
unfolding lookup
has_empty s m e = rw e

-- `lookup` agrees on two maps in what keys it finds.
abbrev pub SameKeys {ℓ κ} : {V : Type ℓ} {W : Type κ} → Dict V → Dict W → Type 0
SameKeys m n = (k : String) → has k m ≡ has k n

module _ {ℓ κ} {V : Type ℓ} {W : Type κ} where
  pub SameKeys-insert :
      (k : String) (v : V) (w : W) (m : Dict V) (n : Dict W)
      → SameKeys m n
      → SameKeys (insert k v m) (insert k w n)
  SameKeys-insert k v w m n h j = ground (arith, lookup-insert k j v m, lookup-insert k j w n, h j)

  pub SameKeys-delete :
      (k : String) (m : Dict V) (n : Dict W) → SameKeys m n → SameKeys (delete k m) (delete k n)
  SameKeys-delete k m n h j = ground (arith, lookup-delete k j m, lookup-delete k j n, h j)
