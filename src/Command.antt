-- ===== src/Command.antt =====
-- The command cmd/tiqq-gen: the files that it writes, and the order of its calls.
pub mod Write
pub mod Run
pub mod Defaults
