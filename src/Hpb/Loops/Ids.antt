-- ===== src/Hpb/Loops/Ids.antt =====
-- The ids of what the client of pkg/hpb/client.go writes, counted.
use nc_kyutai_live_transcrip.Prelude.{
  List, [], arith, if◌then◌else◌, inl, inr, none, refl, some, suc, zero, ℕ, ◌++◌, ◌+◌, ◌==◌, ◌∷◌,
  ◌≡◌, ◌⊎◌,
}
use nc_kyutai_live_transcrip.Hpb.Client.{
  Outgoing, hello_request, room_join, transcript, pong, signaling,
}
use nc_kyutai_live_transcrip.Hpb.Loops.{taken_at}

-- The ids of messages
abbrev pub ids : List Outgoing → List ℕ
ids [] = []
ids (hello_request n a ∷ ms) = n ∷ ids ms
ids (room_join n t ∷ ms) = n ∷ ids ms
ids (transcript n e ∷ ms) = n ∷ ids ms
ids (pong ∷ ms) = ids ms
ids (signaling m ∷ ms) = ids ms

-- How often a number is listed
abbrev pub times : ℕ → List ℕ → ℕ
times n [] = 0
times n (k ∷ ks) = (if k == n then 1 else 0) + times n ks

-- How often an id stands in messages
abbrev pub uses : ℕ → List Outgoing → ℕ
uses n ms = times n (ids ms)

pub uses-append : (n : ℕ) (xs ys : List Outgoing) → uses n (xs ++ ys) ≡ uses n xs + uses n ys
uses-append n [] ys = omega arith
uses-append n (hello_request k a ∷ xs) ys = omega (arith, uses-append n xs ys)
uses-append n (room_join k t ∷ xs) ys = omega (arith, uses-append n xs ys)
uses-append n (transcript k e ∷ xs) ys = omega (arith, uses-append n xs ys)
uses-append n (pong ∷ xs) ys = uses-append n xs ys
uses-append n (signaling m ∷ xs) ys = uses-append n xs ys

pub uses-cons :
    (n : ℕ) (m : Outgoing) (ms : List Outgoing) → uses n (m ∷ ms) ≡ uses n (m ∷ []) + uses n ms
uses-cons n m ms = uses-append n (m ∷ []) ms

-- What is taken out leaves the others.
pub uses-taken_at :
    (k : ℕ) (ms : List Outgoing)
    → (taken_at k ms ≡ none)
      ⊎ ((m : Outgoing) × (others : List Outgoing) × (taken_at k ms ≡ some (m, others))
          × ((n : ℕ) → uses n ms ≡ uses n (m ∷ others)))
unfolding taken_at
uses-taken_at k [] = inl refl
uses-taken_at zero (x ∷ xs) = inr (x, xs, refl, λ n. refl)
uses-taken_at (suc k) (x ∷ xs) = elim (uses-taken_at k xs) [
  | inl out ↦ inl (rw out refl)
  | inr (m, others, e, same) ↦ inr (
    m,
    x ∷ others,
    rw e refl,
    λ n. omega (
      arith,
      same n,
      uses-cons n x xs,
      uses-cons n m others,
      uses-cons n m (x ∷ others),
      uses-cons n x others,
    ),
  )
]
