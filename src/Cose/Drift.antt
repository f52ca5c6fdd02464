-- ===== src/Cose/Drift.antt =====
-- The drift between the time of a signature and that of its check (verify and verifyDetached,
-- cose/cose.go), with the wrap-around of int64.
use darkbio_crypto_go.Base.{
  ℕ, ◌+◌, ◌-◌, ◌%◌, ◌^◌, Option, none, some, Bool, false, ltb, if◌then◌else◌,
}
use darkbio_crypto_go.Base.Int.{ℤ, pos, negsuc, to_u64}

-- The int64 with these 64 bits.
unfoldable pub from_u64 : ℕ → ℤ
from_u64 u = if ltb u (2 ^ 63) then pos u else negsuc (2 ^ 64 - 1 - u)

unfoldable pub sub_int64 : ℤ → ℤ → ℤ
unfolding from_u64
sub_int64 a b = from_u64 ((to_u64 a + (2 ^ 64 - to_u64 b)) % 2 ^ 64)

unfoldable pub abs_int64 : ℤ → ℤ
unfolding sub_int64
abs_int64 (pos n) = pos n
abs_int64 (negsuc n) = sub_int64 (pos 0) (negsuc n)

-- The drift as the uint64 that is compared with *maxDrift.
unfoldable pub drift : ℤ → ℤ → ℕ
unfolding sub_int64 abs_int64
drift now timestamp = to_u64 (abs_int64 (sub_int64 now timestamp))

unfoldable pub is_stale : Option ℕ → ℤ → ℤ → Bool
unfolding drift
is_stale none now timestamp = false
is_stale (some max_drift) now timestamp = ltb max_drift (drift now timestamp)
