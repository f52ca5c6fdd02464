-- ===== src/Keys.antt =====
-- The signature keys of the packages mldsa, eddsa and xdsa.
pub mod Primitives
pub mod Text
pub mod Mldsa
pub mod Eddsa
pub mod Xdsa
pub mod XdsaText
pub mod Laws
pub mod Parsing
pub mod Exchange
pub mod Signing
pub mod Pair
mod Tests
