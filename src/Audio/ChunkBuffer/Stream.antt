-- ===== src/Audio/ChunkBuffer/Stream.antt =====
-- `ChunkBuffer` over a sequence of calls: a stream of samples in, a stream of chunks out.
use nc_kyutai_live_transcrip.Prelude.{
  All, All-append, List, Option, [], ap, append-nil, append_assoc, append_inj, arith, concat,
  concat-append, length, length-append, none, refl, some, sym, ℕ, ◌++◌, ◌<◌, ◌∙◌, ◌∷◌, ◌≡◌,
}
use nc_kyutai_live_transcrip.Audio.ChunkBuffer.{ChunkBuffer, add, flush}
use nc_kyutai_live_transcrip.Audio.ChunkBuffer.Exact.{IsCut, add-IsCut}

module _ {ℓ} {A : Type ℓ} where
  -- A cutting is determined by what is cut.
  pub IsCut-unique :
      {size : ℕ} (input : List A) (cs ds : List (List A)) (r s : List A)
      → IsCut size input cs r
      → IsCut size input ds s
      → (cs ≡ ds) × (r ≡ s)
  IsCut-unique input [] [] r s c d = (refl, c.whole ∙ sym d.whole)
  IsCut-unique input [] (x ∷ ds) r s c d = absurd (
      omega (
        arith,
        c.short,
        d.full.0,
        ap length (c.whole ∙ sym d.whole),
        length-append (x ++ concat ds) s,
        length-append x (concat ds),
      ))
  IsCut-unique input (x ∷ cs) [] r s c d = absurd (
      omega (
        arith,
        d.short,
        c.full.0,
        ap length (c.whole ∙ sym d.whole),
        length-append (x ++ concat cs) r,
        length-append x (concat cs),
      ))
  IsCut-unique {size} input (x ∷ cs) (y ∷ ds) r s c d =
      let (e, f) =
        append_inj x y (concat cs ++ r) (concat ds ++ s)
          (sym (append_assoc x (concat cs) r)
            ∙ c.whole
            ∙ sym d.whole
            ∙ append_assoc y (concat ds) s)
          (c.full.0 ∙ sym d.full.0) in
      let (g, h) =
        IsCut-unique {size = size} (concat ds ++ s) cs ds r s
          (record { whole = f; full = c.full.1; short = c.short })
          (record { whole = refl; full = d.full.1; short = d.short }) in
      (cc, h)

  -- The calls of `Add` on each frame in turn, and then `Flush`: all that was returned.
  unfoldable pub stream : ChunkBuffer A → List (List A) → Option (ChunkBuffer A × List (List A))
  stream cb [] = some (cb, [])
  stream cb (frame ∷ frames) = elim (add cb frame) [
    | none ↦ none
    | some (cb', chunks) ↦ elim (stream cb' frames) [
      | none ↦ none
      | some (last, more) ↦ some (last, chunks ++ more)
    ]
  ]

  -- Two cuttings one after the other, the second of what the first left and of new samples.
  pub IsCut-append :
      {size : ℕ} (input more : List A) (cs ds : List (List A)) (r s : List A)
      → IsCut size input cs r
      → IsCut size (r ++ more) ds s
      → IsCut size (input ++ more) (cs ++ ds) s
  IsCut-append input more cs ds r s c d = record {
    whole =
        ap (λ l. l ++ s) (concat-append cs ds)
        ∙ append_assoc (concat cs) (concat ds) s
        ∙ ap (◌++◌ (concat cs)) d.whole
        ∙ sym (append_assoc (concat cs) r more)
        ∙ ap (λ l. l ++ more) c.whole;
    full = All-append _ cs ds c.full d.full;
    short = d.short;
  }

  -- Whatever the frames, the calls of `Add` cut the samples that came in, in their order.
  pub stream-IsCut :
      (cb : ChunkBuffer A) (frames : List (List A))
      → 0 < cb.chunk_size
      → length cb.buffer < cb.chunk_size
      → (chunks : List (List A)) × (rest : List A) × (stream cb frames
          ≡ some (record cb { buffer = rest }, chunks))
        × IsCut cb.chunk_size (cb.buffer ++ concat frames) chunks rest
  unfolding stream
  stream-IsCut cb [] positive short =
      ([], cb.buffer, refl, record { whole = sym (append-nil cb.buffer); full = tt; short = short })
  stream-IsCut cb (frame ∷ frames) positive short =
      let (cs, r, e, c) = add-IsCut cb frame positive in
      let (ds, s, f, d) = stream-IsCut (record cb { buffer = r }) frames positive c.short in
      (
        cs ++ ds,
        s,
        rw (e, stream) (rw f refl),
        rw (← append_assoc cb.buffer frame (concat frames))
            (IsCut-append (cb.buffer ++ frame) (concat frames) cs ds r s c d),
      )

-- `Add` returns a chunk as soon as it is complete and keeps less than a chunk back, so how the
-- samples are spread over the calls does not show: two framings of one stream of samples give the
-- same chunks and leave the same buffer.
pub stream_framing {ℓ} :
    {A : Type ℓ} (cb : ChunkBuffer A) (xss yss : List (List A))
    → 0 < cb.chunk_size
    → length cb.buffer < cb.chunk_size
    → concat xss ≡ concat yss
    → stream cb xss ≡ stream cb yss
stream_framing cb xss yss positive short same =
    let (cs, r, e, c) = stream-IsCut cb xss positive short in
    let (ds, s, f, d) = stream-IsCut cb yss positive short in
    let (g, h) = IsCut-unique (cb.buffer ++ concat yss) cs ds r s (rw same at c) d in
    e ∙ rw (g, h) (sym f)

-- From an empty buffer of positive chunk size, every sequence of calls of `Add` returns. Its
-- chunks, followed by what `Flush` then returns, are the samples that came in, in order; each chunk
-- is full, the flushed tail is short of a chunk, and `Flush` empties the buffer.
pub stream-flush_lossless {ℓ} :
    {A : Type ℓ} (cb : ChunkBuffer A) (frames : List (List A))
    → 0 < cb.chunk_size
    → cb.buffer ≡ []
    → (last : ChunkBuffer A) × (chunks : List (List A)) × (stream cb frames ≡ some (last, chunks))
      × (concat chunks ++ (flush last).1 ≡ concat frames)
      × All (λ c. length c ≡ cb.chunk_size) chunks
      × (length (flush last).1 < cb.chunk_size)
      × ((flush last).0 ≡ cb)
unfolding flush
stream-flush_lossless cb frames positive empty =
    let (cs, r, e, c) = stream-IsCut cb frames positive (omega (arith, ap length empty)) in
    (
      record cb { buffer = r },
      cs,
      e,
      c.whole ∙ ap (λ l. l ++ concat frames) empty,
      c.full,
      c.short,
      ground arith,
    )
