-- ===== src/Cbor/Layout.antt =====
-- The layout of what encodeLength (cbor/cbor.go) writes.
use darkbio_crypto_go.Base.{
  ℕ, ◌+◌, ◌*◌, ◌%◌, ◌^◌, ◌<◌, ◌≡◌, ◌⊎◌, ap, ◌++◌, [], ◌∷◌, arith, append_assoc, ltb, leb,
  if◌then◌else◌,
}
use darkbio_crypto_go.Base.Bits.{head_byte}
use darkbio_crypto_go.Cbor.Types.{Bytes, IsU64}
use darkbio_crypto_go.Cbor.BigEndian.{be_bytes}
use darkbio_crypto_go.Cbor.Encoder.{Encoder, encode_length, head}
use native.Mathlib.Nat.{mod-eq_of_lt}

-- The additional info of a header with the value `v`, and the number of bytes behind the head.
unfoldable pub info_of : ℕ → ℕ
info_of v =
    if ltb v 24
    then v
    else if leb v 0xff
    then 24
    else if leb v 0xffff
    then 25
    else if leb v 0xffff_ffff
    then 26
    else 27

unfoldable pub width_of : ℕ → ℕ
width_of v =
    if ltb v 24
    then 0
    else if leb v 0xff
    then 1
    else if leb v 0xffff
    then 2
    else if leb v 0xffff_ffff
    then 4
    else 8

-- A header by its layout: the head byte, then the value in `width_of v` bytes.
unfoldable pub header : ℕ → ℕ → Bytes
unfolding info_of width_of
header major v = (major * 32 + info_of v) ∷ be_bytes (width_of v) v

be_bytes_one : (v : ℕ) → be_bytes 1 v ≡ (v % 256) ∷ []
unfolding be_bytes
be_bytes_one v = ap (λ (b : ℕ). b ∷ []) (omega arith)

head_lem : (m n : ℕ) → m < 8 → n < 32 → head m n ≡ m * 32 + n
head_lem m n hm hn = rw (mod-eq_of_lt {n = m * 32} {m = 2 ^ 8} (omega arith)) (head_byte m n hm hn)

-- encodeLength appends that layout.
pub encode_length-header :
    (major v : ℕ) (e : Encoder)
    → major < 8
    → IsU64 v
    → encode_length major v e ≡ e ++ header major v
unfolding encode_length header be_bytes
encode_length-header major v e hm hv = ground (
  arith,
  head_lem major (v % 2 ^ 8),
  head_lem major 24,
  head_lem major 25,
  head_lem major 26,
  head_lem major 27,
  append_assoc e (head major 25 ∷ []) (be_bytes 2 v),
  append_assoc e (head major 26 ∷ []) (be_bytes 4 v),
  append_assoc e (head major 27 ∷ []) (be_bytes 8 v),
)

-- Longer layouts are those of greater values.
pub info_of-lt : (v : ℕ) → info_of v < 28
unfolding info_of
info_of-lt v = ground arith

pub lt_of_info_of-lt : (v w : ℕ) → info_of v < info_of w → v < w
unfolding info_of
lt_of_info_of-lt v w h = ground arith

pub width_of-eq : (v w : ℕ) → info_of v ≡ info_of w → width_of v ≡ width_of w
unfolding info_of width_of
width_of-eq v w h = ground arith

-- Behind a head of width 0 the value is the info itself.
pub width_of_fits : (v : ℕ) → IsU64 v → (width_of v ≡ 0) × (info_of v ≡ v) ⊎ (v < 256 ^ width_of v)
unfolding info_of width_of
width_of_fits v h = ground arith

pub info_of_short : (v : ℕ) → width_of v ≡ 0 → info_of v ≡ v
unfolding info_of width_of
info_of_short v h = ground arith
