-- ===== src/Cbor.antt =====
-- Package cbor (cbor/cbor.go): the wire format and its strict subset.
pub mod Types
pub mod BigEndian
pub mod Utf8
pub mod Encoder
pub mod Decoder
pub mod Verify
pub mod Cursor
pub mod Layout
pub mod Header
pub mod KeyOrder
pub mod Methods
pub mod Codec
pub mod Item
pub mod Accepts
pub mod Soundness
pub mod Grammar
pub mod Canonical
pub mod Skip
mod Tests
