-- ===== src/Cbor/Tests.antt =====
-- Concrete runs of package cbor, and its theorems at concrete inputs.
use darkbio_crypto_go.Base.{
  ℕ, ◌≤◌, ◌<◌, ◌≡◌, refl, ◌↔◌, ◌⊎◌, [], ◌∷◌, ◌++◌, arith, Bool, true, compare,
}
use darkbio_crypto_go.Base.Int.{pos, negsuc}
use darkbio_crypto_go.Cbor.Types.{
  Bytes, IsU64, ok, err, invalid_utf8, invalid_map_key_order, max_depth_exceeded, non_canonical,
  trailing_bytes, max_depth,
}
use darkbio_crypto_go.Cbor.BigEndian.{be_bytes, be_value}
use darkbio_crypto_go.Cbor.Encoder.{
  encode_length, encode_uint, encode_int, encode_bytes, encode_text,
}
use darkbio_crypto_go.Cbor.Decoder.{
  done, new_decoder, finish, read_info, is_canonical, decode_header, decode_uint, decode_int,
  decode_bytes, decode_text,
}
use darkbio_crypto_go.Cbor.Utf8
use darkbio_crypto_go.Cbor.Cursor.{Consumes}
use darkbio_crypto_go.Cbor.Codec.{
  behind, decode_header_iff, decode_uint-encode_uint, decode_int-encode_int,
  decode_bytes-encode_bytes, decode_text-encode_text,
}
use darkbio_crypto_go.Cbor.KeyOrder.{rank, map_key_cmp-rank}
use darkbio_crypto_go.Cbor.Verify.{verify, verify_object, skip_object, map_key_cmp, compare_bytes}
use darkbio_crypto_go.Cbor.Item.{Item, Valid, depth, encoding}
use darkbio_crypto_go.Cbor.Canonical.{verify_iff}
use darkbio_crypto_go.Cbor.Skip.{skip_object-Covers}

-- {1: [true, null], -1: h'00ff'}
abbrev sample : Bytes
sample = 0xa2 ∷ 0x01 ∷ 0x82 ∷ 0xf5 ∷ 0xf6 ∷ 0x20 ∷ 0x42 ∷ 0x00 ∷ 0xff ∷ []

verify-sample : verify sample ≡ ok tt
unfolding verify decode_header read_info is_canonical be_value decode_int map_key_cmp compare_bytes
    encode_int encode_length be_bytes finish
verify-sample = refl

-- {-1: 0, 1: 0}
verify_unordered : verify (0xa2 ∷ 0x20 ∷ 0x00 ∷ 0x01 ∷ 0x00 ∷ []) ≡ err invalid_map_key_order
unfolding verify decode_header read_info is_canonical be_value decode_int map_key_cmp compare_bytes
    encode_int encode_length be_bytes finish
verify_unordered = refl

verify_padded : verify (0x18 ∷ 0x17 ∷ []) ≡ err non_canonical
unfolding verify decode_header read_info is_canonical be_value
verify_padded = refl

verify_trailing : verify (0x00 ∷ 0x00 ∷ []) ≡ err trailing_bytes
unfolding verify decode_header read_info is_canonical be_value finish
verify_trailing = refl

-- 32 arrays around an integer.
nested : ℕ → Bytes → Bytes
nested ℕ.zero b = b
nested (ℕ.suc n) b = 0x81 ∷ nested n b

verify_deep : verify (nested 32 (0x00 ∷ [])) ≡ err max_depth_exceeded
unfolding nested verify decode_header read_info is_canonical be_value finish
verify_deep = refl

verify_surrogate : verify (0x63 ∷ 0xed ∷ 0xa0 ∷ 0x80 ∷ []) ≡ err invalid_utf8
unfolding verify decode_header read_info is_canonical be_value finish Utf8.valid
verify_surrogate = refl

verify_iff_example :
    (verify sample ≡ ok tt) ↔ ((x : Item) × Valid x × (depth x ≤ max_depth) × (sample ≡ encoding x))
verify_iff_example = verify_iff sample (omega arith)

skip_object-Covers_example :
    skip_object 1 (new_decoder (0x07 ∷ 0xff ∷ []))
    ≡ done tt (record { data_ = 0x07 ∷ 0xff ∷ []; cursor = 1 })
unfolding verify_object decode_header read_info is_canonical be_value
skip_object-Covers_example =
    skip_object-Covers 1 (new_decoder (0x07 ∷ 0xff ∷ []))
      (record { data_ = 0x07 ∷ 0xff ∷ []; cursor = 1 }) refl

map_key_cmp-rank_example :
    map_key_cmp (pos 1000) (negsuc 0) ≡ compare (rank (pos 1000)) (rank (negsuc 0))
map_key_cmp-rank_example = map_key_cmp-rank (pos 1000) (negsuc 0) (omega arith) (omega arith)

decode_header_iff_example :
    (decode_header (new_decoder (0x19 ∷ 1 ∷ 44 ∷ 7 ∷ []))
      ≡ done (0, 300) (record { data_ = 0x19 ∷ 1 ∷ 44 ∷ 7 ∷ []; cursor = 3 }))
    ↔ ((0 < 8)
        × IsU64 300
        × Consumes
            (new_decoder (0x19 ∷ 1 ∷ 44 ∷ 7 ∷ []))
            (encode_length 0 300 [])
            (record { data_ = 0x19 ∷ 1 ∷ 44 ∷ 7 ∷ []; cursor = 3 }))
decode_header_iff_example =
    decode_header_iff (new_decoder (0x19 ∷ 1 ∷ 44 ∷ 7 ∷ []))
      (record { data_ = 0x19 ∷ 1 ∷ 44 ∷ 7 ∷ []; cursor = 3 }) 0 300 (omega arith)

decode_uint-encode_uint_example :
    let buf = encode_uint 70000 (1 ∷ []) in
    decode_uint (behind (1 ∷ []) (buf ++ 9 ∷ [])) ≡ done 70000 (behind buf (buf ++ 9 ∷ []))
decode_uint-encode_uint_example = decode_uint-encode_uint 70000 (1 ∷ []) (9 ∷ []) (omega arith)

decode_int-encode_int_example :
    let buf = encode_int (negsuc 499) (1 ∷ []) in
    decode_int (behind (1 ∷ []) (buf ++ 9 ∷ [])) ≡ done (negsuc 499) (behind buf (buf ++ 9 ∷ []))
decode_int-encode_int_example = decode_int-encode_int (negsuc 499) (1 ∷ []) (9 ∷ []) (omega arith)

decode_bytes-encode_bytes_example :
    let buf = encode_bytes (5 ∷ 6 ∷ []) (1 ∷ []) in
    decode_bytes (behind (1 ∷ []) (buf ++ 9 ∷ [])) ≡ done (5 ∷ 6 ∷ []) (behind buf (buf ++ 9 ∷ []))
decode_bytes-encode_bytes_example =
    decode_bytes-encode_bytes (5 ∷ 6 ∷ []) (1 ∷ []) (9 ∷ []) (omega arith)

decode_text-encode_text_example :
    (encode_text (0x61 ∷ 0xc3 ∷ 0xa9 ∷ []) (1 ∷ []) ≡ err invalid_utf8)
      × (Utf8.valid (0x61 ∷ 0xc3 ∷ 0xa9 ∷ []) ≡ Bool.false)
    ⊎ ((buf : Bytes) × (encode_text (0x61 ∷ 0xc3 ∷ 0xa9 ∷ []) (1 ∷ []) ≡ ok buf)
        × (Utf8.valid (0x61 ∷ 0xc3 ∷ 0xa9 ∷ []) ≡ true)
        × (decode_text (behind (1 ∷ []) (buf ++ 9 ∷ []))
            ≡ done (0x61 ∷ 0xc3 ∷ 0xa9 ∷ []) (behind buf (buf ++ 9 ∷ []))))
decode_text-encode_text_example =
    decode_text-encode_text (0x61 ∷ 0xc3 ∷ 0xa9 ∷ []) (1 ∷ []) (9 ∷ []) (omega arith)
