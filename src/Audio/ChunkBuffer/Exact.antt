-- ===== src/Audio/ChunkBuffer/Exact.antt =====
-- What one call of `Add` returns.
use nc_kyutai_live_transcrip.Prelude.{
  All, Bool-cases, List, [], ap, append-nil, append_assoc, arith, concat, drop, inl, inr, leb,
  leb_false→lt, leb→le, length, length-drop, length-take, le→leb, none, refl, some, suc, take,
  take-append-drop, zero, ℕ, ◌++◌, ◌<◌, ◌∙◌, ◌∷◌, ◌≡◌, ◌≤◌,
}
use nc_kyutai_live_transcrip.Audio.ChunkBuffer.{ChunkBuffer, cut, keep_rest, add}

-- The chunks and the rest are a cutting of the input: in order, nothing lost, each chunk full and
-- the rest short of a chunk.
pub record IsCut {ℓ} {A : Type ℓ} (size : ℕ) (input : List A) (chunks : List (List A))
    (rest : List A) : Type ℓ where
  pub whole : concat chunks ++ rest ≡ input
  pub full : All (λ c. length c ≡ size) chunks
  pub short : length rest < size

module _ {ℓ} {A : Type ℓ} (size : ℕ) (positive : 0 < size) where
  full_take : (buffer : List A) → size ≤ length buffer → length (take size buffer) ≡ size
  full_take buffer h = omega (arith, length-take size buffer)

  -- The loop ends with rounds to spare, and what it gathers goes behind the earlier chunks.
  pub cut-IsCut :
      (rounds : ℕ) (chunks : List (List A)) (buffer : List A)
      → length buffer < rounds
      → (more : List (List A)) × (rest : List A) × (cut rounds size chunks buffer
          ≡ some (chunks ++ more, rest))
        × IsCut size buffer more rest
  unfolding cut
  cut-IsCut zero chunks buffer h = elim h [ ]
  cut-IsCut (suc rounds) chunks buffer h = elim (Bool-cases (leb size (length buffer))) [
    | inr less ↦ (
      [],
      buffer,
      rw (less, append-nil chunks),
      record { whole = refl; full = tt; short = leb_false→lt _ _ less },
    )
    | inl enough ↦
        let head = take size buffer in
        let le = leb→le _ _ enough in
        let (more, rest, e, c) =
          cut-IsCut rounds (chunks ++ head ∷ []) (drop size buffer)
            (omega (arith, length-drop size buffer, le)) in
        (
          head ∷ more,
          rest,
          rw enough (
              e
              ∙ ap (λ (l : List (List A)). some (l, rest)) (append_assoc chunks (head ∷ []) more)),
          record {
            whole =
                append_assoc head (concat more) rest
                ∙ ap (◌++◌ head) c.whole
                ∙ take-append-drop size buffer;
            full = (full_take buffer le, c.full);
            short = c.short;
          },
        )
  ]

-- `Add` always returns when a chunk holds at least one sample. What it returns is a cutting of
-- the buffered samples followed by the new ones, and what is left over is buffered.
pub add-IsCut {ℓ} :
    {A : Type ℓ} (cb : ChunkBuffer A) (samples : List A)
    → 0 < cb.chunk_size
    → (chunks : List (List A)) × (rest : List A) × (add cb samples
        ≡ some (record cb { buffer = rest }, chunks))
      × IsCut cb.chunk_size (cb.buffer ++ samples) chunks rest
unfolding add
add-IsCut cb samples positive =
    let all = cb.buffer ++ samples in
    let (chunks, rest, e, c) =
      cut-IsCut cb.chunk_size positive (suc (length all)) [] all (omega arith) in
    (chunks, rest, ap (keep_rest cb) e, c)

-- With no room for a sample in a chunk the loop takes every round that it is given.
cut_stuck {ℓ} :
    {A : Type ℓ} (rounds : ℕ) (chunks : List (List A)) (buffer : List A)
    → cut rounds 0 chunks buffer ≡ none
unfolding cut
cut_stuck zero chunks buffer = refl
cut_stuck (suc rounds) chunks buffer =
    rw (le→leb 0 (length buffer) (omega arith)) (cut_stuck rounds (chunks ++ [] ∷ []) buffer)
