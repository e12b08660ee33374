-- ===== src/Audio.antt =====
-- pkg/audio/pipeline.go: resampling, and cutting the sample stream into chunks.
pub mod Floats
pub mod ChunkBuffer
pub mod Pipeline
pub mod Halves
mod Tests
