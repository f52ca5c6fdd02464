-- ===== src/Base/Bits.antt =====
-- Masks and shifts within one byte as arithmetic; the facts are tables that evaluation checks.
use Prim.Native.Nat.{ℕ, zero, suc, ◌+◌, ◌*◌, ◌%◌, ◌<◌, bit_and, bit_or}
use mathlib.Core.Path.{◌≡◌, refl}
use mathlib.Core.Bool.{Bool, true, ◌&&◌}
use native.Mathlib.Omega.{arith}
use darkbio_crypto_go.Base.Tests.{◌==◌}

-- The test succeeds on 0, ..., bound - 1.
module _ (test : ℕ → Bool) where
  table : ℕ → Bool
  table = elim [ zero ↦ true | suc (last → earlier) ↦ earlier && test last ]

  table_entry : {bound : ℕ} → table bound ≡ true → (i : ℕ) → i < bound → test i ≡ true
  unfolding table
  table_entry {bound = zero} checked i below = elim below [ ]
  table_entry {bound = suc last} checked i below =
      ground (arith, λ (t : table last ≡ true). table_entry {bound = last} t i)

same_number : (m n : ℕ) → (m == n) ≡ true → m ≡ n
same_number m n h = ground arith

low_five_table : table (λ b. bit_and b 0x1f == b % 32) 256 ≡ true
unfolding table
low_five_table = refl

-- b & 0x1f
pub low_five : (b : ℕ) → b < 256 → bit_and b 0x1f ≡ b % 32
low_five b h = same_number _ _ (table_entry _ low_five_table b h)

head_table : table (λ major. table (λ low. bit_or (major * 32) low == major * 32 + low) 32) 8 ≡ true
unfolding table
head_table = refl

-- major << 5 | low
pub head_byte : (major low : ℕ) → major < 8 → low < 32 → bit_or (major * 32) low ≡ major * 32 + low
head_byte major low h l = same_number _ _ (table_entry _ (table_entry _ head_table major h) low l)
