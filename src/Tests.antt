-- ===== src/Tests.antt =====
-- Concrete schemas and queries, what the builders make of them, and the theorems applied to them.
pub mod Data
mod Builders
mod Rules
mod Values
mod Commands
mod Introspections
mod Generator
