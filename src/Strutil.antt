-- ===== src/Strutil.antt =====
-- The text helpers of internal/strutil that stand on their own.
pub mod Split
pub mod Quotes
pub mod Key
