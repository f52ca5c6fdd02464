-- ===== src/Reflect/Trip.antt =====
-- What encodeValue writes, decodeValue reads (cbor/reflect.go): the types without fields.
use darkbio_crypto_go.Base.{
  ℕ, ◌<◌, ◌^◌, ◌≡◌, refl, sym, ap, subst, none, some, Bool, true, false, [], ◌∷◌, ◌++◌, length,
  arith, append_assoc, append-nil, ◌==◌,
}
use darkbio_crypto_go.Base.Int.{ℤ, pos, negsuc, IsInt64}
use darkbio_crypto_go.Cbor.Types.{Bytes, IsLength, IsU64, ok}
use darkbio_crypto_go.Cbor.Layout.{header, info_of, encode_length-header}
use darkbio_crypto_go.Cbor.Header.{decode_header-Reads}
use darkbio_crypto_go.Cbor.Utf8
use darkbio_crypto_go.Cbor.Encoder.{
  Encoder, encode_length, encode_uint, encode_bytes, encode_text, encode_bool, encode_null,
}
use darkbio_crypto_go.Cbor.Decoder.{
  Decoder, M, done, ◌>>=◌, pure, peek_null, decode_bytes_fixed, decode_array_header,
  decode_map_header,
}
use darkbio_crypto_go.Cbor.Cursor.{Reads, IsAt, IsAt-peek, read_bytes-Reads}
use darkbio_crypto_go.Cbor.Methods.{
  int_encoding, bytes_encoding, text_encoding, bool_encoding, null_encoding, Reads-after_header,
  encode_int_appends, decode_uint-Reads, decode_int-Reads, decode_bytes-Reads, decode_text-Reads,
  decode_bool-Reads, decode_null-Reads,
}
use darkbio_crypto_go.Reflect.Types
use darkbio_crypto_go.Reflect.Types.{Ty, Val}
use darkbio_crypto_go.Reflect.Marshal.{encode_value}
use darkbio_crypto_go.Reflect.Unmarshal.{decode_from, is_option, set_uint, pointee}
use darkbio_crypto_go.Reflect.Numbers.{InWidth, set_int-InWidth}
use darkbio_crypto_go.Reflect.Canonical.{encode_array_header-header}
use native.Mathlib.Nat.{mod-eq_of_lt, add-zero}

-- An encoding that does not look like null.
abbrev pub NotNull : Bytes → Type 0
NotNull enc = (b : ℕ) × (rest : Bytes) × (enc ≡ b ∷ rest) × ((b == 0xf6) ≡ false)

-- The value is written as `enc`, which reads as the value into any variable.
pub record Trip (at_switch : Bool) (t : Ty) (v : Val t) (optional : Bool) : Type 0 where
  pub enc : Bytes
  pub writes : (e : Encoder) → encode_value t v optional e ≡ ok (e ++ enc)
  pub reads : (old : Val t) → Reads (decode_from at_switch t old optional) enc v
  pub not_null : at_switch ≡ true → NotNull enc

info_of_lt : (n : ℕ) → info_of n < 32
unfolding info_of
info_of_lt n = ground arith

pub header-NotNull : (major n : ℕ) (rest : Bytes) → major < 7 → NotNull (header major n ++ rest)
unfolding header
header-NotNull major n rest h = (_, _, refl, ground (arith, info_of_lt n))

pub peek_null-NotNull :
    (enc rest : Bytes) (d : Decoder) → NotNull enc → IsAt d (enc ++ rest) → peek_null d ≡ false
unfolding peek_null
peek_null-NotNull enc rest d (b, more, e, other) at = rw (
  IsAt-peek d b (more ++ rest) (subst (λ (x : Bytes). IsAt d (x ++ rest)) e at),
  peek_null,
  other,
)

pub peek_null-null :
    (rest : Bytes) (d : Decoder) → IsAt d (null_encoding ++ rest) → peek_null d ≡ true
unfolding peek_null
peek_null-null rest d at = rw (IsAt-peek d 0xf6 rest at, peek_null)

pub pure-Reads : {A : Type 0} (a : A) → Reads (pure a) [] a
pure-Reads a d rest at = ap (λ (n : ℕ). done a (record d { cursor = n })) (sym (add-zero d.cursor))

-- A reader whose result is put into something larger.
pub map-Reads :
    {A B : Type 0} (m : M A) (f : A → B) (enc : Bytes) (a : A)
    → Reads m enc a
    → Reads (m >>= λ x. pure (f x)) enc (f a)
map-Reads m f enc a h d rest at = rw (h d rest at, ◌>>=◌)

pub decode_array_header-Reads : (n : ℕ) → IsU64 n → Reads decode_array_header (header 4 n) n
unfolding decode_array_header
decode_array_header-Reads n h d rest at =
    rw (decode_header-Reads 4 n (omega arith) h d rest at, ◌>>=◌)

pub decode_map_header-Reads : (n : ℕ) → IsU64 n → Reads decode_map_header (header 5 n) n
unfolding decode_map_header
decode_map_header-Reads n h d rest at =
    rw (decode_header-Reads 5 n (omega arith) h d rest at, ◌>>=◌)

pub bytes_written :
    (major : ℕ) (b : Bytes) (e : Encoder) (h : major < 8) (small : IsLength (length b))
    → encode_length major (length b) e ++ b ≡ e ++ (header major (length b) ++ b)
bytes_written major b e h small =
    rw (encode_length-header major (length b) e h (omega arith)) (append_assoc e _ b)

pub decode_bytes_fixed-Reads :
    (b : Bytes) → IsLength (length b) → Reads (decode_bytes_fixed (length b)) (bytes_encoding b) b
unfolding decode_bytes_fixed
decode_bytes_fixed-Reads b small =
    Reads-after_header 2 (length b) _ b b (omega arith) (omega arith)
      (λ d rest at. ground (arith, read_bytes-Reads b small d rest at))

module _ (at_switch optional : Bool) where
  pub bool-Trip : (v : Bool) → Trip at_switch Types.bool v optional
  unfolding encode_value encode_bool decode_from
  bool-Trip true = record {
    enc = bool_encoding true;
    writes = λ e. refl;
    reads = λ old. decode_bool-Reads true;
    not_null = λ s. (_, _, refl, refl);
  }
  bool-Trip false = record {
    enc = bool_encoding false;
    writes = λ e. refl;
    reads = λ old. decode_bool-Reads false;
    not_null = λ s. (_, _, refl, refl);
  }

  pub uint-Trip :
      (width v : ℕ) → IsU64 v → v < 2 ^ width → Trip at_switch (Types.uint width) v optional
  unfolding encode_value encode_uint decode_from set_uint
  uint-Trip width v h small = record {
    enc = header 0 v;
    writes = λ e. ap ok (encode_length-header 0 v e (omega arith) h);
    reads = λ old d rest at.
        rw (decode_uint-Reads v h d rest at, ◌>>=◌, mod-eq_of_lt {n = v} {m = 2 ^ width} small);
    not_null = λ s. subst NotNull (append-nil (header 0 v)) (header-NotNull 0 v [] (omega arith));
  }

  int_encoding-NotNull : (k : ℤ) → NotNull (int_encoding k)
  int_encoding-NotNull (pos n) =
      subst NotNull (append-nil (header 0 n)) (header-NotNull 0 n [] (omega arith))
  int_encoding-NotNull (negsuc n) =
      subst NotNull (append-nil (header 1 n)) (header-NotNull 1 n [] (omega arith))

  pub int-Trip :
      (width : ℕ) (v : ℤ)
      → IsInt64 v
      → InWidth width v
      → Trip at_switch (Types.int width) v optional
  unfolding encode_value decode_from
  int-Trip width v h small = record {
    enc = int_encoding v;
    writes = λ e. ap ok (encode_int_appends v e h);
    reads =
        λ old d rest at. rw (decode_int-Reads v h d rest at, ◌>>=◌, set_int-InWidth width v small);
    not_null = λ s. int_encoding-NotNull v;
  }

  pub string-Trip :
      (v : Bytes)
      → IsLength (length v)
      → Utf8.valid v ≡ true
      → Trip at_switch Types.string v optional
  unfolding encode_value encode_text decode_from
  string-Trip v small good = record {
    enc = text_encoding v;
    writes = λ e. rw good (ap ok (bytes_written 3 v e (omega arith) small));
    reads = λ old. decode_text-Reads v small good;
    not_null = λ s. header-NotNull 3 (length v) v (omega arith);
  }

  pub bytes-Trip :
      (b : Bytes) → IsLength (length b) → Trip at_switch Types.byte_slice (some b) optional
  unfolding encode_value encode_bytes decode_from
  bytes-Trip b small = record {
    enc = bytes_encoding b;
    writes = λ e. ap ok (bytes_written 2 b e (omega arith) small);
    reads = λ old d rest at. rw (
      peek_null-NotNull (bytes_encoding b) rest d (header-NotNull 2 (length b) b (omega arith)) at,
      decode_bytes-Reads b small d rest at,
      ◌>>=◌,
    );
    not_null = λ s. header-NotNull 2 (length b) b (omega arith);
  }

  pub nil-Trip : at_switch ≡ false → optional ≡ true → Trip at_switch Types.byte_slice none optional
  unfolding encode_value encode_null decode_from
  nil-Trip no_ yes_ = record {
    enc = null_encoding;
    writes = λ e. rw yes_;
    reads =
        λ old d rest at. rw (peek_null-null rest d at, yes_, decode_null-Reads d rest at, ◌>>=◌);
    not_null = λ s. cc;
  }

  pub array-Trip :
      (n : ℕ) (b : Bytes)
      → IsLength (length b)
      → length b ≡ n
      → Trip at_switch (Types.byte_array n) b optional
  unfolding encode_value encode_bytes decode_from
  array-Trip n b small len = record {
    enc = bytes_encoding b;
    writes = λ e. ap ok (bytes_written 2 b e (omega arith) small);
    reads = λ old.
        subst (λ (k : ℕ). Reads (decode_bytes_fixed k) (bytes_encoding b) b) len
          (decode_bytes_fixed-Reads b small);
    not_null = λ s. header-NotNull 2 (length b) b (omega arith);
  }

  pub unit-Trip : Trip at_switch Types.unit tt optional
  unfolding encode_value decode_from
  unit-Trip = record {
    enc = header 4 0;
    writes = λ e. ap ok (encode_array_header-header 0 e (omega arith));
    reads = λ old d rest at. rw (decode_array_header-Reads 0 (omega arith) d rest at, ◌>>=◌);
    not_null = λ s. subst NotNull (append-nil (header 4 0)) (header-NotNull 4 0 [] (omega arith));
  }

  pub null-Trip : at_switch ≡ false → Trip at_switch Types.null tt optional
  unfolding encode_value encode_null decode_from
  null-Trip no_ = record {
    enc = null_encoding;
    writes = λ e. refl;
    reads = λ old. decode_null-Reads;
    not_null = λ s. cc;
  }

-- Pointers, from what they point to.
module _ (optional : Bool) (t : Ty) where
  pub nil_pointer-Trip :
      is_option t ≡ false → optional ≡ true → Trip false (Types.ptr t) none optional
  unfolding encode_value encode_null decode_from
  nil_pointer-Trip plain yes_ = record {
    enc = null_encoding;
    writes = λ e. rw yes_;
    reads = λ old d rest at.
        rw (plain, peek_null-null rest d at, yes_, decode_null-Reads d rest at, ◌>>=◌);
    not_null = λ s. cc;
  }

  pub pointer-Trip :
      (v : Val t)
      → is_option t ≡ false
      → Trip true t v false
      → Trip false (Types.ptr t) (some v) optional
  unfolding encode_value decode_from
  pointer-Trip v plain trip = record {
    enc = trip.enc;
    writes = trip.writes;
    reads = λ old d rest at. rw (
      plain,
      peek_null-NotNull trip.enc rest d (trip.not_null refl) at,
      trip.reads (pointee t old) d rest at,
      ◌>>=◌,
    );
    not_null = λ s. cc;
  }
