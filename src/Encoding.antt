-- ===== src/Encoding.antt =====
-- The text encodings of Go's library that the tokens use.
pub mod Base64
pub mod Decimal
pub mod Split
pub mod Hex
