-- ===== src/Reflect.antt =====
-- The reflection layer of package cbor (cbor/reflect.go).
pub mod Types
pub mod Tags
pub mod Marshal
pub mod Unmarshal
pub mod Sorting
pub mod Encodable
pub mod Canonical
pub mod Output
pub mod Numbers
pub mod Shape
pub mod Following
pub mod Plain
pub mod Trip
pub mod Layouts
pub mod RoundTrip
pub mod Typed
pub mod Keeping
pub mod WellTyped
mod Tests
