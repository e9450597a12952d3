-- ===== src/Engine.antt =====
-- The streaming player's engine (web/src/player/engine).
pub mod Number
pub mod Plan
pub mod Ring
pub mod Layout
pub mod Wav
pub mod Transport
pub mod Gains
pub mod Range
pub mod Streamer
pub mod Pcm
