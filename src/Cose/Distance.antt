-- ===== src/Cose/Distance.antt =====
-- The drift that verify compares with its limit (cose/cose.go) against the true distance.
use darkbio_crypto_go.Base.{
  ℕ, suc, ◌+◌, ◌-◌, ◌%◌, ◌^◌, ◌<◌, ◌≡◌, ◌⊎◌, inl, inr, arith, some, ltb, if◌then◌else◌, ◌∙◌,
}
use darkbio_crypto_go.Base.Int.{ℤ, pos, negsuc, IsInt64, to_u64}
use native.Mathlib.Nat.{mod-lt}
use darkbio_crypto_go.Cose.Drift.{from_u64, sub_int64, abs_int64, drift, is_stale}

-- |a - b|
abbrev pub distance : ℤ → ℤ → ℕ
distance (pos m) (pos n) = (m - n) + (n - m)
distance (pos m) (negsuc n) = m + suc n
distance (negsuc m) (pos n) = suc m + n
distance (negsuc m) (negsuc n) = (m - n) + (n - m)

-- The absolute value of the int64 with the bits `u`, as a uint64.
magnitude :
    (u : ℕ)
    → u < 2 ^ 64
    → to_u64 (abs_int64 (from_u64 u)) ≡ (if ltb (2 ^ 63) u then 2 ^ 64 - u else u)
unfolding from_u64 abs_int64 sub_int64
magnitude u h = ground arith

difference :
    (a b : ℤ)
    → IsInt64 a
    → IsInt64 b
    → (((to_u64 a + (2 ^ 64 - to_u64 b)) % 2 ^ 64 ≡ distance a b)
        ⊎ ((to_u64 a + (2 ^ 64 - to_u64 b)) % 2 ^ 64 + distance a b ≡ 2 ^ 64))
difference (pos m) (pos n) ha hb = ground arith
difference (pos m) (negsuc n) ha hb = ground arith
difference (negsuc m) (pos n) ha hb = ground arith
difference (negsuc m) (negsuc n) ha hb = ground arith

drift-distance :
    (now timestamp : ℤ)
    → IsInt64 now
    → IsInt64 timestamp
    → drift now timestamp ≡ (
        if ltb (2 ^ 63) (distance now timestamp)
        then 2 ^ 64 - distance now timestamp
        else distance now timestamp)
unfolding drift sub_int64
drift-distance now timestamp hn ht =
    let u = (to_u64 now + (2 ^ 64 - to_u64 timestamp)) % 2 ^ 64 in
    let small : u < 2 ^ 64 =
      mod-lt (to_u64 now + (2 ^ 64 - to_u64 timestamp)) {m = 2 ^ 64} (omega arith) in
    magnitude u small ∙ go u (distance now timestamp) (difference now timestamp hn ht)
  where
    go :
        (u d : ℕ)
        → ((u ≡ d) ⊎ (u + d ≡ 2 ^ 64))
        → (if ltb (2 ^ 63) u then 2 ^ 64 - u else u) ≡ (if ltb (2 ^ 63) d then 2 ^ 64 - d else d)
    go u d (inl same) = rw same
    go u d (inr sum) = ground arith

-- With a limit, a signature is stale exactly if the two int64 times are further apart than the
-- limit, as long as they are at most 2 ^ 63 seconds apart; beyond that the difference wraps around,
-- and 2 ^ 64 less it is compared.
pub is_stale-distance :
    (limit : ℕ) (now timestamp : ℤ)
    → IsInt64 now
    → IsInt64 timestamp
    → is_stale (some limit) now timestamp
      ≡ ltb limit (
          if ltb (2 ^ 63) (distance now timestamp)
          then 2 ^ 64 - distance now timestamp
          else distance now timestamp)
unfolding is_stale
is_stale-distance limit now timestamp hn ht = rw (drift-distance now timestamp hn ht)
