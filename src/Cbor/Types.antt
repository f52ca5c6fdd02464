-- ===== src/Cbor/Types.antt =====
-- The constants and errors of cbor/cbor.go, byte strings, and the ranges of Go's numbers.
use darkbio_crypto_go.Base.{ℕ, ◌-◌, ◌^◌, ◌<◌, List, ◌≡◌, refl}

abbrev pub Bytes : Type 0
Bytes = List ℕ

abbrev pub IsByte : ℕ → Type 0
IsByte b = b < 256

abbrev pub IsU64 : ℕ → Type 0
IsU64 v = v < 2 ^ 64

-- The bound of a length of Go on a 64-bit platform.
abbrev pub IsLength : ℕ → Type 0
IsLength n = n < 2 ^ 63

-- Supported major types, additional info values, simple values.
abbrev pub major_uint : ℕ
major_uint = 0

abbrev pub major_nint : ℕ
major_nint = 1

abbrev pub major_bytes : ℕ
major_bytes = 2

abbrev pub major_text : ℕ
major_text = 3

abbrev pub major_array : ℕ
major_array = 4

abbrev pub major_map : ℕ
major_map = 5

abbrev pub major_simple : ℕ
major_simple = 7

abbrev pub info_uint8 : ℕ
info_uint8 = 24

abbrev pub info_uint16 : ℕ
info_uint16 = 25

abbrev pub info_uint32 : ℕ
info_uint32 = 26

abbrev pub info_uint64 : ℕ
info_uint64 = 27

abbrev pub simple_false : ℕ
simple_false = 20

abbrev pub simple_true : ℕ
simple_true = 21

abbrev pub simple_null : ℕ
simple_null = 22

-- The largest int.
abbrev pub max_int : ℕ
max_int = 2 ^ 63 - 1

-- math.MaxInt64
abbrev pub max_int64 : ℕ
max_int64 = 2 ^ 63 - 1

abbrev pub max_depth : ℕ
max_depth = 32

-- The error values; the details that fmt.Errorf adds to one are not kept.
pub data Error : Type 0 where
  invalid_major_type invalid_additional_info unexpected_eof non_canonical : Error
  invalid_utf8 trailing_bytes unexpected_item_count unsupported_type : Error
  integer_overflow duplicate_map_key invalid_map_key_order : Error
  unexpected_nil unexpected_null max_depth_exceeded : Error

-- Go's (value, error) pair, where a value stands only beside a nil error.
pub data Result {ℓ} (A : Type ℓ) : Type ℓ where
  ok : A → Result A
  err : Error → Result A

abbrev pub and_then {ℓ κ} : {A : Type ℓ} {B : Type κ} → Result A → (A → Result B) → Result B
and_then (ok a) f = f a
and_then (err e) f = err e

-- Inversion of a successful chain.
pub and_then-eq-ok {ℓ κ} :
    {A : Type ℓ} {B : Type κ} (r : Result A) (f : A → Result B) {b : B}
    → and_then r f ≡ ok b
    → (a : A) × (r ≡ ok a) × (f a ≡ ok b)
and_then-eq-ok (ok a) f h = (a, refl, h)
and_then-eq-ok (err e) f h = cc

pub ok-injective {ℓ} : {A : Type ℓ} {a b : A} → ok a ≡ ok b → a ≡ b
ok-injective h = cc
