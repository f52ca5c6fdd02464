-- ===== src/Cbor/Methods.antt =====
-- Each Decoder method (cbor/cbor.go) against the encoding that the matching Encoder method writes.
use darkbio_crypto_go.Base.{
  ℕ, ◌<◌, ◌≡◌, ◌++◌, [], ◌∷◌, Bool, true, false, arith, length, if◌then◌else◌,
}
use darkbio_crypto_go.Base.Int.{ℤ, pos, negsuc, IsInt64}
use darkbio_crypto_go.Cbor.Types.{Bytes, IsLength, IsU64}
use darkbio_crypto_go.Cbor.Layout.{header, encode_length-header}
use darkbio_crypto_go.Cbor.Header.{decode_header-Reads}
use darkbio_crypto_go.Cbor.Encoder.{Encoder, encode_int}
use darkbio_crypto_go.Cbor.Utf8
use darkbio_crypto_go.Cbor.Decoder.{
  M, ◌>>=◌, decode_header, decode_uint, decode_int, decode_bytes, decode_text, decode_bool,
  decode_null,
}
use darkbio_crypto_go.Cbor.Cursor.{Reads, Reads-bind, read_bytes-Reads, IsAt-peek}

-- The encodings, by their layout.
abbrev pub int_encoding : ℤ → Bytes
int_encoding (pos n) = header 0 n
int_encoding (negsuc n) = header 1 n

abbrev pub bytes_encoding : Bytes → Bytes
bytes_encoding b = header 2 (length b) ++ b

abbrev pub text_encoding : Bytes → Bytes
text_encoding t = header 3 (length t) ++ t

abbrev pub bool_encoding : Bool → Bytes
bool_encoding b = if b then 0xf5 ∷ [] else 0xf4 ∷ []

abbrev pub null_encoding : Bytes
null_encoding = 0xf6 ∷ []

pub encode_int_appends : (k : ℤ) (e : Encoder) → IsInt64 k → encode_int k e ≡ e ++ int_encoding k
unfolding encode_int
encode_int_appends (pos n) e h = encode_length-header 0 n e (omega arith) (omega arith)
encode_int_appends (negsuc n) e h = encode_length-header 1 n e (omega arith) (omega arith)

-- A decoder that tests the major type and goes on with the length.
module _ {ℓ} {A : Type ℓ} where
  pub Reads-after_header :
      (major v : ℕ) (f : ℕ × ℕ → M A) (enc : Bytes) (a : A)
      → major < 8
      → IsU64 v
      → Reads (f (major, v)) enc a
      → Reads (decode_header >>= f) (header major v ++ enc) a
  Reads-after_header major v f enc a hm hv r =
      Reads-bind decode_header f (header major v) enc (major, v) a
        (decode_header-Reads major v hm hv) r

pub decode_uint-Reads : (v : ℕ) → IsU64 v → Reads decode_uint (header 0 v) v
unfolding decode_uint
decode_uint-Reads v h d rest at = rw (decode_header-Reads 0 v (omega arith) h d rest at, ◌>>=◌)

pub decode_int-Reads : (k : ℤ) → IsInt64 k → Reads decode_int (int_encoding k) k
unfolding decode_int
decode_int-Reads (pos n) h d rest at =
    rw (decode_header-Reads 0 n (omega arith) (omega arith) d rest at, ◌>>=◌) (ground arith)
decode_int-Reads (negsuc n) h d rest at =
    rw (decode_header-Reads 1 n (omega arith) (omega arith) d rest at, ◌>>=◌) (ground arith)

pub decode_bytes-Reads : (b : Bytes) → IsLength (length b) → Reads decode_bytes (bytes_encoding b) b
unfolding decode_bytes
decode_bytes-Reads b h =
    Reads-after_header 2 (length b) _ b b (omega arith) (omega arith) (read_bytes-Reads b h)

pub decode_text-Reads :
    (t : Bytes) → IsLength (length t) → Utf8.valid t ≡ true → Reads decode_text (text_encoding t) t
unfolding decode_text
decode_text-Reads t h u =
    Reads-after_header 3 (length t) _ t t (omega arith) (omega arith)
      (λ d rest at. rw (read_bytes-Reads t h d rest at, ◌>>=◌, u))

pub decode_bool-Reads : (b : Bool) → Reads decode_bool (bool_encoding b) b
unfolding decode_bool
decode_bool-Reads true d rest at = rw (IsAt-peek d 0xf5 rest at, decode_bool)
decode_bool-Reads false d rest at = rw (IsAt-peek d 0xf4 rest at, decode_bool)

pub decode_null-Reads : Reads decode_null null_encoding tt
unfolding decode_null
decode_null-Reads d rest at = rw (IsAt-peek d 0xf6 rest at, decode_null)
