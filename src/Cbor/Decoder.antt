-- ===== src/Cbor/Decoder.antt =====
-- The Decoder of cbor/cbor.go. A method takes the decoder and returns its value or its error
-- together with the decoder as it leaves it, also where it fails.
use Prim.Native.Nat.{bit_and}
use darkbio_crypto_go.Base.{
  ℕ, ◌+◌, ◌/◌, Option, some, none, Bool, true, false, ◌&&◌, ◌||◌, not, ltb, leb, ◌==◌,
  if◌then◌else◌, length, get_elem?, take, drop,
}
use darkbio_crypto_go.Base.Int.{ℤ, pos, negsuc}
use darkbio_crypto_go.Cbor.Types.{
  Bytes, Error, unexpected_eof, invalid_additional_info, non_canonical, invalid_major_type,
  integer_overflow, unexpected_item_count, invalid_utf8, trailing_bytes, max_int, max_int64,
  major_uint, major_nint, major_bytes, major_text, major_array, major_map, info_uint8, info_uint16,
  info_uint32, info_uint64, simple_false, simple_true, simple_null, major_simple,
}
use darkbio_crypto_go.Cbor.BigEndian.{be_value}
use darkbio_crypto_go.Cbor.Encoder.{head}
use darkbio_crypto_go.Cbor.Utf8

pub record Decoder : Type 0 where
  pub data_ : Bytes
  pub cursor : ℕ

pub data Run {ℓ} (A : Type ℓ) : Type ℓ where
  done : A → Decoder → Run A
  fail : Error → Decoder → Run A

abbrev pub M {ℓ} : Type ℓ → Type ℓ
M A = Decoder → Run A

infixl 5 ◌>>=◌ ◌>>◌
abbrev pub ◌>>=◌ {ℓ κ} : {A : Type ℓ} {B : Type κ} → M A → (A → M B) → M B
◌>>=◌ m f d = elim (m d) [ done a d' ↦ f a d' | fail e d' ↦ fail e d' ]

abbrev pub ◌>>◌ {ℓ} : {B : Type ℓ} → M (Unit {0}) → M B → M B
m >> k = m >>= λ _. k

abbrev pub pure {ℓ} : {A : Type ℓ} → A → M A
pure a d = done a d

abbrev pub throw {ℓ} : {A : Type ℓ} → Error → M A
throw e d = fail e d

abbrev pub advance : Decoder → ℕ → Decoder
advance d n = record d { cursor = d.cursor + n }

abbrev pub new_decoder : Bytes → Decoder
new_decoder bytes = record { data_ = bytes; cursor = 0 }

unfoldable pub finish : M (Unit {0})
finish d = if d.cursor == length d.data_ then done tt d else fail trailing_bytes d

-- data[pos : pos + n]. The code compares n with len(data) - pos, which is not negative.
unfoldable pub read_bytes : ℕ → M Bytes
read_bytes n d =
    if ltb max_int n
    then fail unexpected_eof d
    else if ltb (length d.data_) (d.cursor + n)
    then fail unexpected_eof d
    else done (take n (drop d.cursor d.data_)) (advance d n)

-- The byte under the cursor; there is none exactly when pos >= len(data).
abbrev pub peek : Decoder → Option ℕ
peek d = get_elem? d.data_ d.cursor

-- The integer that `info` announces: itself, or 1, 2, 4 or 8 bytes.
unfoldable pub read_info : ℕ → M ℕ
unfolding read_bytes
read_info info =
    if leb info 23
    then pure info
    else if info == info_uint8
    then (do bytes ← read_bytes 1; pure (be_value bytes))
    else if info == info_uint16
    then (do bytes ← read_bytes 2; pure (be_value bytes))
    else if info == info_uint32
    then (do bytes ← read_bytes 4; pure (be_value bytes))
    else if info == info_uint64
    then (do bytes ← read_bytes 8; pure (be_value bytes))
    else throw invalid_additional_info

unfoldable pub is_canonical : ℕ → ℕ → Bool
is_canonical info value =
    if leb info 23
    then ltb value 24
    else if info == info_uint8
    then leb 24 value && leb value 0xff
    else if info == info_uint16
    then ltb 0xff value && leb value 0xffff
    else if info == info_uint32
    then ltb 0xffff value && leb value 0xffff_ffff
    else if info == info_uint64
    then ltb 0xffff_ffff value
    else false

-- Major type and value.
unfoldable pub decode_header : M (ℕ × ℕ)
decode_header d = elim (peek d) [
  | none ↦ fail unexpected_eof d
  | some b ↦
      (do
        value ← read_info (bit_and b 0x1f)
        if is_canonical (bit_and b 0x1f) value then pure (b / 32, value) else throw non_canonical)
        (advance d 1)
]

-- A header of the major type `want`.
unfoldable pub decode_uint : M ℕ
decode_uint = do
  (major, value) ← decode_header
  if major == major_uint then pure value else throw invalid_major_type

unfoldable pub decode_int : M ℤ
decode_int = do
  (major, value) ← decode_header
  if major == major_uint
      then (if ltb max_int64 value then throw integer_overflow else pure (pos value))
      else if major == major_nint
      then (if ltb max_int64 value then throw integer_overflow else pure (negsuc value))
      else throw invalid_major_type

unfoldable pub decode_bytes : M Bytes
decode_bytes = do
  (major, length) ← decode_header
  if major == major_bytes then read_bytes length else throw invalid_major_type

-- int(length) of a uint64 is its two's complement value, which is `n` only below 2 ^ 63.
unfoldable pub decode_bytes_fixed : ℕ → M Bytes
decode_bytes_fixed n = do
  (major, length) ← decode_header
  if major == major_bytes
      then (if ltb max_int length || not (length == n)
          then throw unexpected_item_count
          else read_bytes length)
      else throw invalid_major_type

unfoldable pub decode_text : M Bytes
decode_text = do
  (major, length) ← decode_header
  if major == major_text
      then (do
        bytes ← read_bytes length
        if Utf8.valid bytes then pure bytes else throw invalid_utf8)
      else throw invalid_major_type

unfoldable pub decode_array_header : M ℕ
decode_array_header = do
  (major, length) ← decode_header
  if major == major_array then pure length else throw invalid_major_type

unfoldable pub decode_map_header : M ℕ
decode_map_header = do
  (major, length) ← decode_header
  if major == major_map then pure length else throw invalid_major_type

unfoldable pub decode_bool : M Bool
decode_bool d = elim (peek d) [
  | none ↦ fail unexpected_eof d
  | some b ↦
      if b == head major_simple simple_false
      then done false (advance d 1)
      else if b == head major_simple simple_true
      then done true (advance d 1)
      else fail invalid_major_type d
]

unfoldable pub decode_null : M (Unit {0})
decode_null d = elim (peek d) [
  | none ↦ fail unexpected_eof d
  | some b ↦
      if not (b == head major_simple simple_null)
      then fail invalid_major_type d
      else done tt (advance d 1)
]

unfoldable pub peek_null : Decoder → Bool
peek_null d = elim (peek d) [ none ↦ false | some b ↦ b == head major_simple simple_null ]
