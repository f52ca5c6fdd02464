-- ===== src/Cose.antt =====
-- The code of cose/cose.go: COSE_Sign1 signatures and COSE_Encrypt0 messages.
pub mod Outcome
pub mod Types
pub mod Drift
pub mod Sign
pub mod Verify
pub mod Encrypt
pub mod Accepting
pub mod Wire
pub mod Layout
pub mod RoundTrip
pub mod Sealing
pub mod Agreement
pub mod Separation
pub mod Distance
mod Tests
