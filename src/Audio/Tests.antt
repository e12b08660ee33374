-- ===== src/Audio/Tests.antt =====
-- Runs of the audio code on small inputs.
use nc_kyutai_live_transcrip.Prelude.{
  All, List, [], arith, concat, length, negsuc, none, pos, refl, some, ℕ, ℤ, ◌++◌, ◌<◌, ◌∷◌, ◌≡◌,
}
use nc_kyutai_live_transcrip.Audio.ChunkBuffer.{
  ChunkBuffer, new_chunk_buffer, cut, add, flush, reset,
}
use nc_kyutai_live_transcrip.Audio.ChunkBuffer.Exact.{IsCut, add-IsCut}
use nc_kyutai_live_transcrip.Audio.ChunkBuffer.Stream.{stream, stream-flush_lossless}
use nc_kyutai_live_transcrip.Audio.Pipeline.{
  new_resampler, output_at, output_from, resample, new_pipeline, int16_to_float32,
  process_pcm_frame,
}
use nc_kyutai_live_transcrip.Audio.Halves.{halves, speaker_pipeline}

abbrev pairs : ChunkBuffer ℕ
pairs = record { chunk_size = 2; buffer = 7 ∷ [] }

abbrev fresh : ChunkBuffer ℕ
fresh = record { chunk_size = 2; buffer = [] }

session_chunk : new_chunk_buffer {A = ℕ} 24000 80 ≡ record { chunk_size = 1920; buffer = [] }
unfolding new_chunk_buffer
session_chunk = refl

add_run : add pairs (8 ∷ 9 ∷ []) ≡ some (record pairs { buffer = 9 ∷ [] }, (7 ∷ 8 ∷ []) ∷ [])
unfolding add cut
add_run = refl

reset_run : reset pairs ≡ fresh
unfolding reset
reset_run = refl

add-IsCut_example :
    (chunks : List (List ℕ)) × (rest : List ℕ) × (add pairs (8 ∷ 9 ∷ [])
      ≡ some (record pairs { buffer = rest }, chunks))
    × IsCut 2 (7 ∷ 8 ∷ 9 ∷ []) chunks rest
add-IsCut_example = add-IsCut pairs (8 ∷ 9 ∷ []) (omega arith)

stream-flush_lossless_example :
    (last : ChunkBuffer ℕ) × (chunks : List (List ℕ)) × (stream fresh ((1 ∷ 2 ∷ 3 ∷ []) ∷ [])
      ≡ some (last, chunks))
    × (concat chunks ++ (flush last).1 ≡ 1 ∷ 2 ∷ 3 ∷ [])
    × All (λ c. length c ≡ 2) chunks
    × (length (flush last).1 < 2)
    × ((flush last).0 ≡ fresh)
stream-flush_lossless_example =
    stream-flush_lossless fresh ((1 ∷ 2 ∷ 3 ∷ []) ∷ []) (omega arith) refl

pcm_run : process_pcm_frame halves speaker_pipeline (pos 3 ∷ pos 4 ∷ []) ≡ some (3 ∷ [])
unfolding process_pcm_frame int16_to_float32 resample new_resampler output_from output_at
pcm_run = refl

bad_rate : new_pipeline halves (negsuc 0) (pos 24000) ≡ none
unfolding new_pipeline
bad_rate = refl

abbrev pcm_frames : List (List ℤ)
pcm_frames = (pos 3 ∷ pos 4 ∷ []) ∷ [] ∷ (pos 5 ∷ pos 6 ∷ pos 7 ∷ pos 8 ∷ []) ∷ []
