-- ===== src/History.antt =====
-- Package history (internal/history): the undo states of the lines.
pub mod Undo
pub mod Names
pub mod Sources
pub mod Acceptance
pub mod Match
