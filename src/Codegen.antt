-- ===== src/Codegen.antt =====
-- codegen/generate.go: what the generator decides about a schema before and while it prints Go code.
pub mod Words
pub mod Types
pub mod Names
pub mod Keys
pub mod Print
pub mod Generate
