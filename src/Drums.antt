-- ===== src/Drums.antt =====
-- The drum editor's model (web/src/lib/drums).
pub mod Double
pub mod Types
pub mod Hits
pub mod Editor
pub mod Autosave
pub mod Search
