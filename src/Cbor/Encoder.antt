-- ===== src/Cbor/Encoder.antt =====
-- The Encoder of cbor/cbor.go. An encoder is its buffer; each method appends to it.
use Prim.Native.Nat.{bit_or}
use darkbio_crypto_go.Base.{ℕ, ◌*◌, ◌%◌, ◌^◌, Bool, [], ◌∷◌, ◌++◌, ltb, leb, if◌then◌else◌, length}
use darkbio_crypto_go.Base.Int.{ℤ, pos, negsuc, to_u64}
use darkbio_crypto_go.Cbor.Types.{
  Bytes, Result, ok, err, invalid_utf8, major_uint, major_nint, major_bytes, major_text,
  major_array, major_map, major_simple, info_uint8, info_uint16, info_uint32, info_uint64,
  simple_false, simple_true, simple_null,
}
use darkbio_crypto_go.Cbor.BigEndian.{be_bytes}
use darkbio_crypto_go.Cbor.Utf8

abbrev pub Encoder : Type 0
Encoder = Bytes

abbrev pub new_encoder : Encoder
new_encoder = []

-- major << 5 | low, on uint8.
abbrev pub head : ℕ → ℕ → ℕ
head major low = bit_or (major * 32 % 2 ^ 8) low

unfoldable pub encode_length : ℕ → ℕ → Encoder → Encoder
encode_length major length e =
    if ltb length 24
    then e ++ (head major (length % 2 ^ 8) ∷ [])
    else if leb length 0xff
    then e ++ (head major info_uint8 ∷ length % 2 ^ 8 ∷ [])
    else if leb length 0xffff
    then (e ++ (head major info_uint16 ∷ [])) ++ be_bytes 2 (length % 2 ^ 16)
    else if leb length 0xffff_ffff
    then (e ++ (head major info_uint32 ∷ [])) ++ be_bytes 4 (length % 2 ^ 32)
    else (e ++ (head major info_uint64 ∷ [])) ++ be_bytes 8 length

unfoldable pub encode_uint : ℕ → Encoder → Encoder
encode_uint value = encode_length major_uint value

-- For the negative value -(n + 1) the code writes -1 - value, which is n.
unfoldable pub encode_int : ℤ → Encoder → Encoder
encode_int (pos n) = encode_length major_uint n
encode_int (negsuc n) = encode_length major_nint n

unfoldable pub encode_bytes : Bytes → Encoder → Encoder
encode_bytes value e = encode_length major_bytes (length value) e ++ value

unfoldable pub encode_text : Bytes → Encoder → Result Encoder
encode_text value e =
    if Utf8.valid value
    then ok (encode_length major_text (length value) e ++ value)
    else err invalid_utf8

-- The argument is an int, converted to uint64.
unfoldable pub encode_array_header : ℤ → Encoder → Encoder
encode_array_header length = encode_length major_array (to_u64 length)

unfoldable pub encode_map_header : ℤ → Encoder → Encoder
encode_map_header length = encode_length major_map (to_u64 length)

unfoldable pub encode_bool : Bool → Encoder → Encoder
encode_bool value e =
    if value
    then e ++ (head major_simple simple_true ∷ [])
    else e ++ (head major_simple simple_false ∷ [])

unfoldable pub encode_null : Encoder → Encoder
encode_null e = e ++ (head major_simple simple_null ∷ [])
