-- ===== src/Tests.antt =====
-- The theorems at concrete inputs, and runs of the models.
mod Core
mod Editor
mod History
mod Inputrc
mod Selection
mod Keymap
mod Shell
mod Sources
mod Strutil
mod Tokens
