-- ===== src/Inputrc.antt =====
-- Package inputrc: the escapes of key sequences, and the parser of inputrc files.
pub mod Codes
pub mod Escape
pub mod Unescape
pub mod Scan
pub mod Reader
pub mod Parser
pub mod Config
