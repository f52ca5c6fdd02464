-- ===== src/Cbor/BigEndian.antt =====
-- encoding/binary's BigEndian, as cbor/cbor.go uses it: numbers of `k` bytes, the highest first.
use darkbio_crypto_go.Base.{
  ℕ, zero, suc, ◌+◌, ◌*◌, ◌/◌, ◌%◌, ◌^◌, ◌<◌, ◌≡◌, refl, ap, ap₂, ◌∙◌, [], ◌∷◌, arith, length, All,
}
use darkbio_crypto_go.Cbor.Types.{Bytes, IsByte}
use native.Mathlib.Nat.{
  pow-succ', mul-add-div_right, div-add-mod', one-le-pow, div-eq_of_lt, mod-lt, mod-eq_of_lt,
}

-- AppendUint16, AppendUint32 and AppendUint64 append byte(v >> 8(k-1)), ..., byte(v).
unfoldable pub be_bytes : ℕ → ℕ → Bytes
be_bytes zero v = []
be_bytes (suc k) v = (v / 256 ^ k % 256) ∷ be_bytes k v

-- Uint16, Uint32 and Uint64 shift each byte to its place.
unfoldable pub be_value : Bytes → ℕ
be_value [] = 0
be_value (b ∷ bs) = b * 256 ^ length bs + be_value bs

pub length-be_bytes : (k v : ℕ) → length (be_bytes k v) ≡ k
unfolding be_bytes
length-be_bytes zero v = refl
length-be_bytes (suc k) v = ap suc (length-be_bytes k v)

pub be_bytes-IsByte : (k v : ℕ) → All IsByte (be_bytes k v)
unfolding be_bytes
be_bytes-IsByte zero v = tt
be_bytes-IsByte (suc k) v = (omega arith, be_bytes-IsByte k v)

pow_pos : (k : ℕ) → 0 < 256 ^ k
pow_pos k = one-le-pow k 256 (omega arith)

pub digit_lt : (b r p n : ℕ) → b < n → r < p → b * p + r < n * p
digit_lt b r p n hb hr = grind arith

pub be_value-lt : (bs : Bytes) → All IsByte bs → be_value bs < 256 ^ length bs
unfolding be_value
be_value-lt [] h = omega arith
be_value-lt (b ∷ bs) (hb, h) = rw pow-succ' (digit_lt b _ _ 256 hb (be_value-lt bs h))

high_digit : (p a r : ℕ) → r < p → (a * p + r) / p ≡ a
high_digit p a r h =
    omega (arith, mul-add-div_right {m = p} (omega arith) a r, div-eq_of_lt {n = r} {m = p} h)

-- Two numbers in base `p` with the same value have the same digits.
pub digits_unique : (p a r b s : ℕ) → r < p → s < p → a * p + r ≡ b * p + s → (a ≡ b) × (r ≡ s)
digits_unique p a r b s hr hs e = (same, omega (arith, e, ap (λ (t : ℕ). t * p) same))
  where
    same : a ≡ b
    same = omega (arith, high_digit p a r hr, high_digit p b s hs, ap (λ (t : ℕ). t / p) e)

pub mod_split : (v p : ℕ) → 0 < p → v % (256 * p) ≡ v / p % 256 * p + v % p
mod_split v p h =
    (digits_unique (256 * p) (v / (256 * p)) _ (v / p / 256) _ (mod-lt v (omega arith))
      (digit_lt (v / p % 256) (v % p) p 256 (omega arith) (mod-lt v h)) same).1
  where
    same :
        v / (256 * p) * (256 * p) + v % (256 * p)
        ≡ v / p / 256 * (256 * p) + (v / p % 256 * p + v % p)
    same = omega (
      arith,
      div-add-mod' v (256 * p),
      div-add-mod' v p,
      ap (λ (t : ℕ). t * p) (div-add-mod' (v / p) 256),
    )

pub be_value-be_bytes_mod : (k v : ℕ) → be_value (be_bytes k v) ≡ v % 256 ^ k
unfolding be_value be_bytes
be_value-be_bytes_mod zero v = omega arith
be_value-be_bytes_mod (suc k) v =
    rw (length-be_bytes, pow-succ', mod_split v (256 ^ k) (pow_pos k), be_value-be_bytes_mod k v)

pub be_value_unique :
    (xs ys : Bytes)
    → All IsByte xs
    → All IsByte ys
    → length xs ≡ length ys
    → be_value xs ≡ be_value ys
    → xs ≡ ys
unfolding be_value
be_value_unique [] [] hx hy e v = refl
be_value_unique [] (y ∷ ys) hx hy e v = absurd (omega arith)
be_value_unique (x ∷ xs) [] hx hy e v = absurd (omega arith)
be_value_unique (x ∷ xs) (y ∷ ys) (hx, hxs) (hy, hys) e v =
    let len : length xs ≡ length ys = omega arith in
    let (same, rest) =
      digits_unique (256 ^ length ys) x (be_value xs) y (be_value ys)
        (rw len at (be_value-lt xs hxs)) (be_value-lt ys hys) (rw len at v) in
    ap₂ (λ (b : ℕ) (bs : Bytes). b ∷ bs) same (be_value_unique xs ys hxs hys len rest)

-- A number that fits is read back from its bytes.
pub be_value-be_bytes : (k v : ℕ) → v < 256 ^ k → be_value (be_bytes k v) ≡ v
be_value-be_bytes k v h = be_value-be_bytes_mod k v ∙ mod-eq_of_lt h

-- Bytes are written back from the number that they stand for.
pub be_bytes-be_value : (bs : Bytes) → All IsByte bs → be_bytes (length bs) (be_value bs) ≡ bs
be_bytes-be_value bs h =
    be_value_unique _ bs (be_bytes-IsByte _ _) h (length-be_bytes _ _)
      (be_value-be_bytes (length bs) (be_value bs) (be_value-lt bs h))
