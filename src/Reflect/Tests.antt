-- ===== src/Reflect/Tests.antt =====
-- Concrete runs of Marshal and Unmarshal, and their theorems at concrete inputs.
use darkbio_crypto_go.Base.{◌≡◌, refl, some, none, true, false, [], ◌∷◌}
use darkbio_crypto_go.Cbor.Types.{Bytes, ok, err, invalid_map_key_order, unsupported_type}
use darkbio_crypto_go.Cbor.BigEndian.{be_bytes, be_value}
use darkbio_crypto_go.Cbor.Encoder.{encode_length, encode_int, encode_bool, encode_map_header}
use darkbio_crypto_go.Cbor.Decoder.{
  decode_header, read_info, is_canonical, decode_int, finish, peek_null,
}
use darkbio_crypto_go.Cbor.Verify.{verify, map_key_cmp, compare_bytes}
use darkbio_crypto_go.Cbor.Item.{Item}
use darkbio_crypto_go.Reflect.Types.{
  FieldInfo, Ty, Val, bool, uint, byte_slice, struct, ptr, no_fields, field,
}
use darkbio_crypto_go.Reflect.Tags.{key_word}
use darkbio_crypto_go.Reflect.Plain.{Plain}
use darkbio_crypto_go.Reflect.Typed.{WellTyped}
use darkbio_crypto_go.Reflect.Marshal.{marshal}
use darkbio_crypto_go.Reflect.Unmarshal.{unmarshal, is_option}

-- A uint8 `cbor:"2,key"`; B *bool `cbor:"-1,key"`; C []byte `cbor:"1,key"`
abbrev field_a : FieldInfo
field_a = record { name = b'A' ∷ []; exported = true; tag = b'2' ∷ b',' ∷ key_word }

abbrev field_b : FieldInfo
field_b = record { name = b'B' ∷ []; exported = true; tag = b'-' ∷ b'1' ∷ b',' ∷ key_word }

abbrev field_c : FieldInfo
field_c = record { name = b'C' ∷ []; exported = true; tag = b'1' ∷ b',' ∷ key_word }

abbrev triple : Ty
triple =
    struct (field field_a (uint 8) (field field_b (ptr bool) (field field_c byte_slice no_fields)))

abbrev triple_value : Val triple
triple_value = (7, (some true, (some (1 ∷ 2 ∷ []), tt)))

abbrev triple_bytes : Bytes
triple_bytes = 0xa3 ∷ 1 ∷ 0x42 ∷ 1 ∷ 2 ∷ 2 ∷ 7 ∷ 0x20 ∷ 0xf5 ∷ []

-- Two fields with the key 1: Marshal does not object, and Verify refuses what it wrote.
abbrev twins : Ty
twins = struct (field field_c bool (field field_c bool no_fields))

marshal-twins : marshal twins (true, (false, tt)) ≡ ok (0xa2 ∷ 1 ∷ 0xf5 ∷ 1 ∷ 0xf4 ∷ [])
unfolding marshal map_key_cmp compare_bytes encode_int encode_length encode_bool encode_map_header
marshal-twins = refl

verify-twins : verify (0xa2 ∷ 1 ∷ 0xf5 ∷ 1 ∷ 0xf4 ∷ []) ≡ err invalid_map_key_order
unfolding verify decode_header read_info is_canonical be_value decode_int map_key_cmp compare_bytes
    encode_int encode_length be_bytes finish
verify-twins = refl

-- A pointer to a pointer is written, and cannot be read.
marshal_pointers : marshal (ptr (ptr bool)) (some (some true)) ≡ ok (0xf5 ∷ [])
unfolding marshal encode_bool
marshal_pointers = refl

unmarshal_pointers : unmarshal (ptr (ptr bool)) (0xf5 ∷ []) none ≡ err unsupported_type
unfolding unmarshal is_option peek_null
unmarshal_pointers = refl

-- The fields of the struct above, in the order of their keys.
abbrev ordered : Ty
ordered =
    struct (field field_c byte_slice (field field_a (uint 8) (field field_b (ptr bool) no_fields)))

abbrev ordered_value : Val ordered
ordered_value = (some (1 ∷ 2 ∷ []), (7, (some true, tt)))
