-- ===== src/Cbor/KeyOrder.antt =====
-- The order of map keys: mapKeyCmp (cbor/cbor.go) compares encodings byte by byte.
use darkbio_crypto_go.Base.{
  ℕ, ◌+◌, ◌*◌, ◌^◌, ◌<◌, ◌≡◌, refl, sym, ap₂, ◌∙◌, [], ◌∷◌, inl, inr, arith, compare, length, All,
  compare-cases, compare-add_left, lt→compare, gt→compare,
}
use darkbio_crypto_go.Base.Int.{ℤ, pos, negsuc, IsInt64}
use darkbio_crypto_go.Cbor.Types.{Bytes, IsByte, IsU64}
use darkbio_crypto_go.Cbor.BigEndian.{
  be_bytes, be_value, length-be_bytes, be_bytes-IsByte, be_value-lt, be_value-be_bytes, digit_lt,
}
use darkbio_crypto_go.Cbor.Layout.{
  info_of-lt, lt_of_info_of-lt, width_of-eq, width_of_fits, info_of_short, info_of, width_of,
  header, encode_length-header,
}
use darkbio_crypto_go.Cbor.Encoder.{encode_int}
use darkbio_crypto_go.Cbor.Verify.{compare_bytes, map_key_cmp}

-- The place of a key in the deterministic order: the positive ones first, then -1, -2, ...
abbrev pub rank : ℤ → ℕ
rank (pos n) = n
rank (negsuc n) = 2 ^ 64 + n

compare_bytes-be_value :
    (xs ys : Bytes)
    → All IsByte xs
    → All IsByte ys
    → length xs ≡ length ys
    → compare_bytes xs ys ≡ compare (be_value xs) (be_value ys)
unfolding compare_bytes be_value
compare_bytes-be_value [] [] hx hy e = refl
compare_bytes-be_value [] (y ∷ ys) hx hy e = absurd (omega arith)
compare_bytes-be_value (x ∷ xs) [] hx hy e = absurd (omega arith)
compare_bytes-be_value (x ∷ xs) (y ∷ ys) (hx, hxs) (hy, hys) e =
    let len : length xs ≡ length ys = omega arith in
    let lt_x = rw len at (be_value-lt xs hxs) in
    let lt_y = be_value-lt ys hys in
    rw len (elim (compare-cases x y) [
      | inl (c, lt) ↦
          rw (c, compare_bytes) (sym (lt→compare _ _ (omega (arith, digit_lt x _ _ y lt lt_x))))
      | inr (inl (c, eq)) ↦
          rw (c, compare_bytes, eq)
            (compare_bytes-be_value xs ys hxs hys len
              ∙ sym (compare-add_left (y * 256 ^ length ys) _ _))
      | inr (inr (c, gt)) ↦
          rw (c, compare_bytes) (sym (gt→compare _ _ (omega (arith, digit_lt y _ _ x gt lt_y))))
    ])

compare_bytes-be_bytes :
    (k v w : ℕ)
    → v < 256 ^ k
    → w < 256 ^ k
    → compare_bytes (be_bytes k v) (be_bytes k w) ≡ compare v w
compare_bytes-be_bytes k v w hv hw =
    compare_bytes-be_value (be_bytes k v) (be_bytes k w) (be_bytes-IsByte k v) (be_bytes-IsByte k w)
      (length-be_bytes k v ∙ sym (length-be_bytes k w))
    ∙ ap₂ compare (be_value-be_bytes k v hv) (be_value-be_bytes k w hw)

tails_short :
    (v w : ℕ)
    → width_of v ≡ 0
    → width_of w ≡ 0
    → info_of v ≡ info_of w
    → compare_bytes (be_bytes (width_of v) v) (be_bytes (width_of w) w) ≡ compare v w
unfolding compare_bytes be_bytes
tails_short v w zv zw e =
    let same : v ≡ w = omega (arith, info_of_short v zv, info_of_short w zw) in
    rw (zv, zw) (ground arith)

-- What follows two equal heads.
tails :
    (v w : ℕ)
    → IsU64 v
    → IsU64 w
    → info_of v ≡ info_of w
    → compare_bytes (be_bytes (width_of v) v) (be_bytes (width_of w) w) ≡ compare v w
tails v w hv hw e =
    let we = width_of-eq v w e in
    elim (width_of_fits v hv) [
      | inl (z, i) ↦ tails_short v w z (sym we ∙ z) e
      | inr fits ↦ elim (width_of_fits w hw) [
        | inl (z, i) ↦ tails_short v w (we ∙ z) z e
        | inr fits' ↦ rw we (compare_bytes-be_bytes (width_of w) v w (rw we at fits) fits')
      ]
    ]

lower :
    (m v n w : ℕ)
    → IsU64 v
    → m * 32 + info_of v < n * 32 + info_of w
    → m * 2 ^ 64 + v < n * 2 ^ 64 + w
lower m v n w hv h = elim (compare-cases m n) [
  | inl (c, lt) ↦ omega arith
  | inr (inl (c, eq)) ↦ omega (arith, lt_of_info_of-lt v w (omega arith))
  | inr (inr (c, gt)) ↦ absurd (omega (arith, info_of-lt v, info_of-lt w))
]

compare_bytes-header :
    (m v n w : ℕ)
    → IsU64 v
    → IsU64 w
    → compare_bytes (header m v) (header n w) ≡ compare (m * 2 ^ 64 + v) (n * 2 ^ 64 + w)
unfolding header compare_bytes
compare_bytes-header m v n w hv hw =
    elim (compare-cases (m * 32 + info_of v) (n * 32 + info_of w)) [
      | inl (c, lt) ↦ rw (c, compare_bytes) (sym (lt→compare _ _ (lower m v n w hv lt)))
      | inr (inl (c, eq)) ↦
          let heads : m ≡ n = omega (arith, info_of-lt v, info_of-lt w) in
          let infos : info_of v ≡ info_of w = omega (arith, info_of-lt v, info_of-lt w) in
          rw (c, compare_bytes)
            (tails v w hv hw infos ∙ sym (rw heads (compare-add_left (n * 2 ^ 64) v w)))
      | inr (inr (c, gt)) ↦ rw (c, compare_bytes) (sym (gt→compare _ _ (lower n w m v hw gt)))
    ]

encode_int-header :
    (k : ℤ)
    → IsInt64 k
    → (m : ℕ) × (v : ℕ) × (encode_int k [] ≡ header m v) × IsU64 v × (rank k ≡ m * 2 ^ 64 + v)
unfolding encode_int
encode_int-header (pos n) h =
    (0, n, encode_length-header 0 n [] (omega arith) (omega arith), omega arith, omega arith)
encode_int-header (negsuc n) h =
    (1, n, encode_length-header 1 n [] (omega arith) (omega arith), omega arith, omega arith)

-- mapKeyCmp orders int64 keys by their place: positive keys first, in ascending order, then the
-- negative ones in descending order.
pub map_key_cmp-rank :
    (a b : ℤ) → IsInt64 a → IsInt64 b → map_key_cmp a b ≡ compare (rank a) (rank b)
unfolding map_key_cmp
map_key_cmp-rank a b ha hb =
    let (m, v, ea, hv, ra) = encode_int-header a ha in
    let (n, w, eb, hw, rb) = encode_int-header b hb in
    rw (ea, eb, ra, rb) (compare_bytes-header m v n w hv hw)
