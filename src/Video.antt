-- ===== src/Video.antt =====
-- The video path: server/encoder/video_encoder.cpp cuts a frame into shards, and
-- client/decoder/shard_accumulator.cpp puts the shards of a frame together again.
pub mod Shard
pub mod Encoder
pub mod Accumulator
pub mod Frame
pub mod Aliasing
mod Runs
