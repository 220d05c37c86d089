-- ===== src/Editor.antt =====
-- The parts of internal/editor that are modelled.
pub mod Buffers
