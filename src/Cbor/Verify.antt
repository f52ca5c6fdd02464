-- ===== src/Cbor/Verify.antt =====
-- The map key order, skipObject, Verify and verifyObject of cbor/cbor.go.
-- A `for range value` loop counts the rounds left; the nesting depth is the recursion's measure.
use darkbio_crypto_go.Base.{
  ℕ, zero, suc, Option, some, none, Bool, true, false, ◌||◌, [], ◌∷◌, ◌==◌, if◌then◌else◌, compare,
  Ordering,
}
use darkbio_crypto_go.Base.Int.{ℤ}
use darkbio_crypto_go.Cbor.Types.{
  Bytes, Result, ok, err, invalid_utf8, unsupported_type, max_depth_exceeded, invalid_map_key_order,
  max_depth, major_uint, major_nint, major_bytes, major_text, major_array, major_map, major_simple,
  simple_false, simple_true, simple_null,
}
use darkbio_crypto_go.Cbor.Encoder.{new_encoder, encode_int}
use darkbio_crypto_go.Cbor.Decoder.{
  M, done, fail, ◌>>=◌, ◌>>◌, pure, throw, new_decoder, finish, read_bytes, decode_header,
  decode_int,
}
use darkbio_crypto_go.Cbor.Utf8

-- slices.Compare: lexicographic, a proper prefix first.
unfoldable pub compare_bytes : Bytes → Bytes → Ordering
compare_bytes [] [] = Ordering.eq
compare_bytes [] (y ∷ ys) = Ordering.lt
compare_bytes (x ∷ xs) [] = Ordering.gt
compare_bytes (x ∷ xs) (y ∷ ys) =
    let rest = compare_bytes xs ys in
    elim (compare x y) [
      | Ordering.lt ↦ Ordering.lt
      | Ordering.eq ↦ rest
      | Ordering.gt ↦ Ordering.gt
    ]

unfoldable pub map_key_cmp : ℤ → ℤ → Ordering
map_key_cmp a b = compare_bytes (encode_int a new_encoder) (encode_int b new_encoder)

abbrev pub is_lt : Ordering → Bool
is_lt Ordering.lt = true
is_lt Ordering.eq = false
is_lt Ordering.gt = false

-- `for range n { if err := body(); err != nil { return err } }`
unfoldable pub repeat : ℕ → M (Unit {0}) → M (Unit {0})
repeat zero body = pure tt
repeat (suc n) body = body >>= λ _. repeat n body

-- What skipObject does once it has read the header; `skip` is the call one level deeper.
unfoldable pub skip_body : M (Unit {0}) → ℕ → ℕ → M (Unit {0})
skip_body skip major value =
    if major == major_uint || major == major_nint
    then pure tt
    else if major == major_bytes || major == major_text
    then (read_bytes value >>= λ _. pure tt)
    else if major == major_array
    then repeat value skip
    else if major == major_map
    then repeat value (skip >> skip)
    else if major == major_simple
    then (if value == simple_false || value == simple_true || value == simple_null
        then pure tt
        else throw unsupported_type)
    else throw unsupported_type

unfoldable pub skip_object : ℕ → M (Unit {0})
unfolding skip_body repeat
skip_object zero = throw max_depth_exceeded
skip_object (suc depth) =
    decode_header >>= λ (major, value). skip_body (skip_object depth) major value

abbrev pub follows : Option ℤ → ℤ → Bool
follows none key = true
follows (some prev) key = is_lt (map_key_cmp prev key)

-- The pairs of a map: int64 keys in strictly ascending order, each with a verified value.
unfoldable pub verify_pairs : ℕ → Option ℤ → M (Unit {0}) → M (Unit {0})
verify_pairs zero prev value = pure tt
verify_pairs (suc n) prev value = decode_int >>= λ key.
    if follows prev key
    then (value >>= λ _. verify_pairs n (some key) value)
    else throw invalid_map_key_order

unfoldable pub verify_body : M (Unit {0}) → ℕ → ℕ → M (Unit {0})
verify_body inner major value =
    if major == major_uint || major == major_nint
    then pure tt
    else if major == major_bytes
    then (read_bytes value >>= λ _. pure tt)
    else if major == major_text
    then (read_bytes value >>= λ bytes. if Utf8.valid bytes then pure tt else throw invalid_utf8)
    else if major == major_array
    then repeat value inner
    else if major == major_map
    then verify_pairs value none inner
    else if major == major_simple
    then (if value == simple_false || value == simple_true || value == simple_null
        then pure tt
        else throw unsupported_type)
    else throw unsupported_type

unfoldable pub verify_object : ℕ → M (Unit {0})
unfolding verify_body verify_pairs repeat
verify_object zero = throw max_depth_exceeded
verify_object (suc depth) =
    decode_header >>= λ (major, value). verify_body (verify_object depth) major value

unfoldable pub verify : Bytes → Result (Unit {0})
unfolding verify_object
verify bytes = elim ((verify_object max_depth >> finish) (new_decoder bytes)) [
  | done a d ↦ ok a
  | fail e d ↦ err e
]
