-- ===== src/Core.antt =====
-- Package core (internal/core): the line buffer, the cursor on it, the numeric argument of a command
-- and the stack of keys.
pub mod Line
pub mod Surround
pub mod Tokens
pub mod Search
pub mod Cursor
pub mod Selection
pub mod Iterations
pub mod Keys
