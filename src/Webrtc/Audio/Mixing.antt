-- ===== src/Webrtc/Audio/Mixing.antt =====
-- What `readAndDecodeAudio` of pkg/webrtc/manager.go delivers, without an index.
use nc_kyutai_live_transcrip.Prelude.{
  All, Bool-cases, List, [], ap, arith, drop, get_elem?, if◌then◌else◌, inl, inr, leb, length,
  length-append, length-drop, length-take, map, refl, some, suc, sym, take, true, zero, ℕ, ◌*◌,
  ◌++◌, ◌+◌, ◌<◌, ◌==◌, ◌∙◌, ◌∷◌, ◌≡◌, ◌≤◌,
}
use nc_kyutai_live_transcrip.Webrtc.Audio.{
  Samples, Packet, closing, read_error, empty_payload, decode_error, decoded, clamp, clamp_first,
  sum_from, mono_from, deliver_frame, read_and_decode,
}

module _ {ℓ} {A : Type ℓ} where
  -- The item at a place, and what stands from there on
  item_at :
      (n : ℕ) (xs : List A)
      → n < length xs
      → (x : A) × (get_elem? xs n ≡ some x) × (drop n xs ≡ x ∷ drop (suc n) xs)
  item_at zero [] h = absurd (omega arith)
  item_at zero (x ∷ xs) h = (x, refl, refl)
  item_at (suc n) [] h = absurd (omega arith)
  item_at (suc n) (x ∷ xs) h = item_at n xs (omega arith)

module _ (S : Samples) where
  open S use {F32, above, plus, over, zero_sample, one, minus_one}

  -- Every sample clamped to the range from -1 to 1
  abbrev pub clamped : List F32 → List F32
  clamped = map (clamp S)

  abbrev pub sum_of : F32 → List F32 → F32
  sum_of acc [] = acc
  sum_of acc (x ∷ xs) = sum_of (plus acc x) xs

  -- The buffer in groups of one sample per channel, each averaged
  abbrev pub averages : ℕ → ℕ → List F32 → List F32
  averages channels zero pcm = []
  averages channels (suc n) pcm =
      over (sum_of zero_sample (take channels pcm)) channels
      ∷ averages channels n (drop channels pcm)

  -- One channel is delivered as it is.
  abbrev pub mixed : ℕ → ℕ → List F32 → List F32
  mixed channels n pcm = if channels == 1 then take n pcm else averages channels n pcm

  sum_from-lem :
      (channels : ℕ) (pcm : List F32) (i ch left : ℕ) (acc : F32)
      → i * channels + ch + left ≤ length pcm
      → sum_from S channels pcm i ch left acc
        ≡ some (sum_of acc (take left (drop (i * channels + ch) pcm)))
  unfolding sum_from
  sum_from-lem channels pcm i ch zero acc h = refl
  sum_from-lem channels pcm i ch (suc left) acc h =
      let (x, there, behind) = item_at (i * channels + ch) pcm (omega arith) in
      let next : i * channels + (ch + 1) ≡ suc (i * channels + ch) = omega arith in
      rw (there, sum_from)
        (rw behind (
          sum_from-lem channels pcm i (ch + 1) left (plus acc x) (omega arith)
          ∙ ap (λ k. some (sum_of (plus acc x) (take left (drop k pcm)))) next))

  drop-nil : (n : ℕ) → drop {A = F32} n [] ≡ []
  drop-nil zero = refl
  drop-nil (suc n) = refl

  drop-drop : (m n : ℕ) (xs : List F32) → drop m (drop n xs) ≡ drop (n + m) xs
  drop-drop m zero xs = ap (λ k. drop k xs) (omega arith)
  drop-drop m (suc n) [] = drop-nil m ∙ sym (drop-nil (suc n + m))
  drop-drop m (suc n) (x ∷ xs) =
      let e : suc n + m ≡ suc (n + m) = omega arith in rw e (drop-drop m n xs)

  mono_from-lem :
      (channels : ℕ) (pcm : List F32) (i left : ℕ)
      → i * channels + left * channels ≤ length pcm
      → mono_from S channels pcm i left ≡ some (averages channels left (drop (i * channels) pcm))
  unfolding mono_from
  mono_from-lem channels pcm i zero h = refl
  mono_from-lem channels pcm i (suc left) h =
      let more : suc left * channels ≡ channels + left * channels = grind arith in
      let next : (i + 1) * channels ≡ i * channels + channels = grind arith in
      let here : sum_from S channels pcm i 0 channels zero_sample
          ≡ some (sum_of zero_sample (take channels (drop (i * channels + 0) pcm))) =
        sum_from-lem channels pcm i 0 channels zero_sample (omega arith) in
      let rest = mono_from-lem channels pcm (i + 1) left (omega arith) in
      let plain : i * channels + 0 ≡ i * channels = omega arith in
      let here' = rw plain at here in
      let behind : drop ((i + 1) * channels) pcm ≡ drop channels (drop (i * channels) pcm) =
        rw next (sym (drop-drop channels (i * channels) pcm)) in
      rw here' (rw (rest, mono_from) (rw behind refl))

  clamp_first-lem :
      (n : ℕ) (pcm : List F32)
      → n ≤ length pcm
      → clamp_first S n pcm ≡ some (clamped (take n pcm) ++ drop n pcm)
  unfolding clamp_first
  clamp_first-lem zero pcm h = refl
  clamp_first-lem (suc n) [] h = absurd (omega arith)
  clamp_first-lem (suc n) (x ∷ pcm) h = rw (clamp_first-lem n pcm (omega arith)) refl

  length-clamped : (xs : List F32) → length (clamped xs) ≡ length xs
  length-clamped [] = refl
  length-clamped (x ∷ xs) = ap suc (length-clamped xs)

  length-buffer :
      (n : ℕ) (pcm : List F32)
      → n ≤ length pcm
      → length (clamped (take n pcm) ++ drop n pcm) ≡ length pcm
  length-buffer n pcm h = omega (
    arith,
    length-append (clamped (take n pcm)) (drop n pcm),
    length-clamped (take n pcm),
    length-take n pcm,
    length-drop n pcm,
  )

  whole_buffer :
      (channels n : ℕ) (buffer : List F32)
      → n * channels ≤ length buffer
      → mono_from S channels buffer 0 n ≡ some (averages channels n buffer)
  whole_buffer channels n buffer h =
      let none_before : 0 * channels ≡ 0 = omega arith in
      mono_from-lem channels buffer 0 n (omega arith)
      ∙ ap (λ k. some (averages channels n (drop k buffer))) none_before

  -- What a decoded packet delivers, where the buffer has room for its samples
  deliver_frame-mixed :
      (channels n : ℕ) (pcm : List F32)
      → n * channels ≤ length pcm
      → deliver_frame S channels n pcm ≡ (
          if n == 0
          then some []
          else some (
              mixed channels n (clamped (take (n * channels) pcm) ++ drop (n * channels) pcm) ∷ []))
  unfolding deliver_frame
  deliver_frame-mixed channels n pcm room = elim (Bool-cases (n == 0)) [
    | inl no_samples ↦ rw no_samples refl
    | inr some_samples ↦
        let buffer = clamped (take (n * channels) pcm) ++ drop (n * channels) pcm in
        rw (some_samples, clamp_first-lem (n * channels) pcm room)
          (elim (Bool-cases (channels == 1)) [
            | inl mono ↦
                let fits : leb n (length buffer) ≡ true =
                  ground (arith, length-buffer (n * channels) pcm room) in
                rw (mono, mixed) (rw fits refl)
            | inr many ↦
                rw (many, mixed)
                  (rw
                    (whole_buffer channels n buffer
                      (omega (arith, length-buffer (n * channels) pcm room)))
                    refl)
          ])
  ]

  -- The buffer has room for what the decoder says that it holds.
  abbrev pub HasRoom : ℕ → Packet S → Type 0
  HasRoom channels (decoded n pcm) = n * channels ≤ length pcm
  HasRoom channels _ = Unit

  -- What the packets before the end or a failed read give, one by one
  abbrev pub frames_of : ℕ → List (Packet S) → List (List F32)
  frames_of channels [] = []
  frames_of channels (closing ∷ packets) = []
  frames_of channels (read_error ∷ packets) = []
  frames_of channels (empty_payload ∷ packets) = frames_of channels packets
  frames_of channels (decode_error ∷ packets) = frames_of channels packets
  frames_of channels (decoded n pcm ∷ packets) =
      (if n == 0
        then []
        else mixed channels n (clamped (take (n * channels) pcm) ++ drop (n * channels) pcm) ∷ [])
      ++ frames_of channels packets

  -- The loop over packets, where the decoder's buffer always has room for the samples that it says
  -- it holds: it reads and slices nothing out of range, and gives the callback, for each packet
  -- before the peer is closing or a read fails that decodes to some samples, those of the one
  -- channel, or the averages over the channels of each group of the buffer, all clamped to the
  -- range from -1 to 1 before.
  pub read_and_decode-frames :
      (channels : ℕ) (packets : List (Packet S))
      → All (HasRoom channels) packets
      → read_and_decode S channels packets ≡ some (frames_of channels packets)
  unfolding read_and_decode
  read_and_decode-frames channels [] h = refl
  read_and_decode-frames channels (closing ∷ packets) (here, h) = refl
  read_and_decode-frames channels (read_error ∷ packets) (here, h) = refl
  read_and_decode-frames channels (empty_payload ∷ packets) (here, h) =
      read_and_decode-frames channels packets h
  read_and_decode-frames channels (decode_error ∷ packets) (here, h) =
      read_and_decode-frames channels packets h
  read_and_decode-frames channels (decoded n pcm ∷ packets) (here, h) =
      let rest = read_and_decode-frames channels packets h in
      elim (Bool-cases (n == 0)) [
        | inl no_samples ↦
            rw (deliver_frame-mixed channels n pcm here, no_samples)
              (rw (rest, read_and_decode) refl)
        | inr some_samples ↦
            rw (deliver_frame-mixed channels n pcm here, some_samples)
              (rw (rest, read_and_decode) refl)
      ]
