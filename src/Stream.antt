-- ===== src/Stream.antt =====
-- The chunked encryption of package stream (stream/stream.go).
pub mod Types
pub mod Nonce
pub mod Size
pub mod Writer
pub mod Sealed
pub mod Filling
pub mod Writing
pub mod Reader
pub mod Progress
pub mod Opening
pub mod Reading
mod Tests
pub mod Draining
pub mod ReaderAt
pub mod Length
pub mod RoundTrip
pub mod EncryptReader
pub mod Feeding
pub mod Encrypting
pub mod Unique
pub mod Places
pub mod Fetching
pub mod RandomAccess
pub mod Starting
