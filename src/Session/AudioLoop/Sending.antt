-- ===== src/Session/AudioLoop/Sending.antt =====
-- What the audio goroutine of pkg/session/transcriber.go queues where its selects send and the
-- channel has room.
use native.Mathlib.Nat.{lt_of_mul-lt-mul_right}
use nc_kyutai_live_transcrip.Prelude.{
  List, [], ap, append-nil, append_assoc, arith, concat, false, leb, length, length-append,
  lt→leb_false, refl, suc, sym, ℕ, ◌*◌, ◌++◌, ◌+◌, ◌<◌, ◌∙◌, ◌∷◌, ◌≡◌, ◌≤◌,
}
use nc_kyutai_live_transcrip.Audio.ChunkBuffer.Exact.{IsCut}
use nc_kyutai_live_transcrip.Session.AudioLoop.{
  Selects, later, takes_done, audio_out_cap, enqueue_audio_chunks,
}

-- A select takes the send where the channel has room, whether or not the context is done.
abbrev pub PrefersSend : Selects → Type 0
PrefersSend sel = (k : ℕ) → sel.prefers_done k ≡ false

-- The context is not done at any select.
abbrev pub live : Selects
live = record { done = λ _. false; prefers_done = λ _. false }

module _ {ℓ} {A : Type ℓ} where
  pub goes_on :
      (sel : Selects) (out : List (List A))
      → PrefersSend sel
      → length out < audio_out_cap
      → takes_done sel 0 (leb audio_out_cap (length out)) ≡ false
  goes_on sel out sends h =
      let room : leb audio_out_cap (length out) ≡ false = lt→leb_false _ _ h in
      ground (arith, room, sends 0)

  pub enqueue_sends :
      (sel : Selects) (chunks out : List (List A))
      → PrefersSend sel
      → length out + length chunks ≤ audio_out_cap
      → enqueue_audio_chunks sel chunks out ≡ out ++ chunks
  unfolding enqueue_audio_chunks
  enqueue_sends sel [] out sends h = sym (append-nil out)
  enqueue_sends sel (chunk ∷ chunks) out sends h =
      let room : leb audio_out_cap (length out) ≡ false = lt→leb_false _ _ (omega arith) in
      let on = goes_on sel out sends (omega arith) in
      let rest =
        enqueue_sends (later sel) chunks (out ++ chunk ∷ []) (λ k. sends (suc k))
          (omega (arith, length-append out (chunk ∷ []))) in
      rw (on, enqueue_audio_chunks)
        (rw (room, enqueue_audio_chunks) (rest ∙ append_assoc out (chunk ∷ []) chunks))

  pub cut_count :
      (size : ℕ) (input : List A) (chunks : List (List A)) (rest : List A)
      → IsCut size input chunks rest
      → length chunks * size + length rest ≡ length input
  cut_count size input [] rest c = omega (arith, ap length c.whole)
  cut_count size input (x ∷ chunks) rest c =
      let shorter =
        cut_count size (concat chunks ++ rest) chunks rest
          (record { whole = refl; full = c.full.1; short = c.short }) in
      omega (
        arith,
        shorter,
        c.full.0,
        ap length (sym (append_assoc x (concat chunks) rest) ∙ c.whole),
        length-append x (concat chunks ++ rest),
      )

pub few_chunks : (n size total : ℕ) → n * size ≤ total → total < 26 * size → n ≤ 25
few_chunks n size total h k =
    let below : n * size < 26 * size = omega arith in
    let lt = lt_of_mul-lt-mul_right size below in omega arith
