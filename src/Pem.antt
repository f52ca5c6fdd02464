-- ===== src/Pem.antt =====
-- Package pem (pem/pem.go).
pub mod Scan
pub mod Codec
pub mod Finding
pub mod RoundTrip
pub mod Safety
mod Tests
