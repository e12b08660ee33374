-- ===== src/Audio/ChunkBuffer.antt =====
-- pkg/audio/pipeline.go: `ChunkBuffer`. A sample is a value of any type; the mutex makes each
-- method one step. `int` does not overflow at the rates and durations that the service passes.
pub mod Exact
pub mod Stream
use nc_kyutai_live_transcrip.Prelude.{
  List, Option, [], drop, if◌then◌else◌, leb, length, none, some, suc, take, zero, ℕ, ◌*◌, ◌++◌,
  ◌/◌, ◌∷◌,
}

pub record ChunkBuffer {ℓ} (A : Type ℓ) : Type ℓ where
  pub chunk_size : ℕ
  pub buffer : List A

module _ {ℓ} {A : Type ℓ} where
  -- `NewChunkBuffer`
  unfoldable pub new_chunk_buffer : ℕ → ℕ → ChunkBuffer A
  new_chunk_buffer sample_rate chunk_duration_ms = record {
    chunk_size = (sample_rate * chunk_duration_ms) / 1000;
    buffer = [];
  }

  -- One round of the loop of `Add` moves a chunk to the result; `none` when the rounds run out.
  unfoldable pub cut : ℕ → ℕ → List (List A) → List A → Option (List (List A) × List A)
  cut zero size chunks buffer = none
  cut (suc rounds) size chunks buffer =
      let again = cut rounds size (chunks ++ take size buffer ∷ []) (drop size buffer) in
      if leb size (length buffer) then again else some (chunks, buffer)

  -- What the loop leaves goes back into the buffer.
  abbrev pub keep_rest :
      ChunkBuffer A → Option (List (List A) × List A) → Option (ChunkBuffer A × List (List A))
  keep_rest cb none = none
  keep_rest cb (some (chunks, rest)) = some (record cb { buffer = rest }, chunks)

  -- `Add`, with one round more than there are samples. `none` is a loop that does not end.
  unfoldable pub add : ChunkBuffer A → List A → Option (ChunkBuffer A × List (List A))
  add cb samples =
      let all = cb.buffer ++ samples in keep_rest cb (cut (suc (length all)) cb.chunk_size [] all)

  -- `Flush`: the samples left over, as a partial chunk.
  unfoldable pub flush : ChunkBuffer A → ChunkBuffer A × List A
  flush cb = (record cb { buffer = [] }, cb.buffer)

  -- `Reset`
  unfoldable pub reset : ChunkBuffer A → ChunkBuffer A
  reset cb = record cb { buffer = [] }
