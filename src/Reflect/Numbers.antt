-- ===== src/Reflect/Numbers.antt =====
-- Integers of every width through Marshal and Unmarshal (cbor/reflect.go).
use darkbio_crypto_go.Base.{
  ℕ, ◌-◌, ◌^◌, ◌≤◌, ◌<◌, ◌≡◌, false, subst, sym, ap, ◌∙◌, [], length, arith, append-nil, lt→ltb,
}
use darkbio_crypto_go.Base.Int.{ℤ, pos, negsuc, IsInt64}
use darkbio_crypto_go.Cbor.Types.{Bytes, ok, ok-injective}
use native.Mathlib.Nat.{mod-eq_of_lt, pow-le-pow_right}
use darkbio_crypto_go.Cbor.Decoder.{done, ◌>>=◌, advance, new_decoder, finish}
use darkbio_crypto_go.Cbor.Cursor.{Reads}
use darkbio_crypto_go.Cbor.Methods.{int_encoding, decode_int-Reads, encode_int_appends}
use darkbio_crypto_go.Reflect.Types.{Ty, Val, int}
use darkbio_crypto_go.Reflect.Marshal.{marshal}
use darkbio_crypto_go.Reflect.Unmarshal.{decode_value, set_int, unmarshal}

finish_at_end :
    (bs : Bytes)
    → finish (advance (new_decoder bs) (length bs)) ≡ done tt (advance (new_decoder bs) (length bs))
unfolding finish
finish_at_end bs = ground arith

-- Unmarshal returns what decodeValue reads from the whole input.
pub unmarshal_whole :
    (t : Ty) (bs : Bytes) (old v : Val t)
    → Reads (decode_value t old false) bs v
    → unmarshal t bs old ≡ ok v
unfolding unmarshal
unmarshal_whole t bs old v reads = rw (
  reads (new_decoder bs) [] (record { fits = omega arith; here = sym (append-nil bs) }),
  unmarshal,
  finish_at_end bs,
)

-- The values of a signed integer of the width.
abbrev pub InWidth : ℕ → ℤ → Type 0
InWidth width (pos n) = n < 2 ^ (width - 1)
InWidth width (negsuc n) = n < 2 ^ (width - 1)

pub set_int-InWidth : (width : ℕ) (k : ℤ) → InWidth width k → set_int width k ≡ k
unfolding set_int
set_int-InWidth width (pos n) h =
    let bound : 2 ^ (width - 1) ≤ 2 ^ width = pow-le-pow_right (omega arith) (omega arith) in
    rw (mod-eq_of_lt {n = n} {m = 2 ^ width} (omega arith), lt→ltb _ _ h)
set_int-InWidth width (negsuc n) h =
    let bound : 2 ^ (width - 1) ≤ 2 ^ width = pow-le-pow_right (omega arith) (omega arith) in
    rw (mod-eq_of_lt {n = n} {m = 2 ^ width} (omega arith), lt→ltb _ _ h)

decode_value-int :
    (width : ℕ) (k old : ℤ)
    → IsInt64 k
    → Reads (decode_value (int width) old false) (int_encoding k) (set_int width k)
unfolding decode_value
decode_value-int width k old fits d rest at = rw (decode_int-Reads k fits d rest at, ◌>>=◌)

-- A signed integer that is in the range of the variable arrives unchanged, from a variable of any
-- other width.
pub unmarshal-marshal_int :
    (from to : ℕ) (k old : ℤ) (bs : Bytes)
    → IsInt64 k
    → InWidth to k
    → marshal (int from) k ≡ ok bs
    → unmarshal (int to) bs old ≡ ok k
unfolding marshal
unmarshal-marshal_int from to k old bs fits range h =
    subst (λ (b : Bytes). unmarshal (int to) b old ≡ ok k)
      (sym (encode_int_appends k [] fits) ∙ ok-injective h)
      (unmarshal_whole (int to) (int_encoding k) old (set_int to k) (decode_value-int to k old fits)
        ∙ ap ok (set_int-InWidth to k range))
