-- ===== src/Go.antt =====
-- The parts of Go's standard library that the source computes with: package strings over byte
-- sequences, path.Clean, and error values.
pub mod Text
pub mod Split
pub mod Clean
pub mod Errors
pub mod Maps
pub mod Exec
pub mod Fields
pub mod Search
pub mod Decimal
