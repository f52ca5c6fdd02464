-- ===== src/Stream/Nonce.antt =====
-- The nonces of stream/stream.go: incNonce, nonceForChunk, setLastChunkFlag, nonceIsZero.
use darkbio_crypto_go.Base.{
  ℕ, zero, suc, ◌+◌, ◌*◌, ◌/◌, ◌%◌, ◌^◌, ◌≤◌, ◌<◌, ◌≡◌, ◌≢◌, refl, sym, ap, ◌∙◌, Option, some, none,
  Bool, true, false, ◌&&◌, [], ◌∷◌, ◌++◌, inl, inr, Bool-cases, ◌==◌, if◌then◌else◌, arith,
}
use darkbio_crypto_go.Cbor.BigEndian.{
  be_bytes, be_value, be_value-be_bytes, digits_unique, mod_split,
}
use darkbio_crypto_go.Stream.Types.{Bytes}
use native.Mathlib.Nat.{pow-succ', div-add-mod', one-le-pow, mod-lt}

-- [12]byte: the eleven bytes of the counter, and the last byte.
pub record Nonce : Type 0 where
  pub counter : Bytes
  pub flag : ℕ

abbrev pub nonce_bytes : Nonce → Bytes
nonce_bytes n = n.counter ++ (n.flag ∷ [])

abbrev pub zeros : ℕ → Bytes
zeros zero = []
zeros (suc n) = 0 ∷ zeros n

abbrev pub new_nonce : Nonce
new_nonce = record { counter = zeros 11; flag = 0 }

abbrev pub last_chunk_flag : ℕ
last_chunk_flag = 1

abbrev pub set_last_chunk_flag : Nonce → Nonce
set_last_chunk_flag n = record n { flag = last_chunk_flag }

unfoldable pub all_zero : Bytes → Bool
all_zero [] = true
all_zero (b ∷ bs) = b == 0 && all_zero bs

unfoldable pub nonce_is_zero : Nonce → Bool
unfolding all_zero
nonce_is_zero n = all_zero (nonce_bytes n)

-- The loop from the last byte to the first, which ends at a byte that does not wrap around. The
-- Boolean says that all of them did.
unfoldable pub inc_bytes : Bytes → Bool × Bytes
inc_bytes [] = (true, [])
inc_bytes (b ∷ bs) =
    let (wrapped, bs') = inc_bytes bs in
    if wrapped then ((b + 1) % 256 == 0, ((b + 1) % 256) ∷ bs') else (false, b ∷ bs')

-- `none` is the panic "chunk counter wrapped around".
unfoldable pub inc_nonce : Nonce → Option Nonce
unfolding inc_bytes
inc_nonce n =
    let (wrapped, counter') = inc_bytes n.counter in
    if wrapped then none else some (record n { counter = counter' })

unfoldable pub nonce_for_chunk : ℕ → Nonce
unfolding be_bytes
nonce_for_chunk index = record { counter = zeros 3 ++ be_bytes 8 index; flag = 0 }

-- The nonce that the k-th chunk is to have if it is not the last.
unfoldable pub nonce_at : ℕ → Nonce
nonce_at k = record { counter = be_bytes 11 k; flag = 0 }

pub new_nonce-nonce_at : new_nonce ≡ nonce_at 0
unfolding nonce_at be_bytes
new_nonce-nonce_at = refl

pub nonce_is_zero-zero : nonce_is_zero (nonce_at 0) ≡ true
unfolding nonce_is_zero nonce_at be_bytes
nonce_is_zero-zero = refl

pow_pos : (k : ℕ) → 0 < 256 ^ k
pow_pos k = one-le-pow k 256 (omega arith)

-- Adding one to q * p + r, a number in base p: the higher digit goes up where the lower one wraps
-- around, and only there.
carry_full :
    (p q r q' r' : ℕ)
    → 0 < p
    → r' < p
    → q' * p + r' ≡ q * p + r + 1
    → r + 1 ≡ p
    → (q' ≡ q + 1) × (r' ≡ 0)
carry_full p q r q' r' h lt e full =
    let next : (q + 1) * p ≡ q * p + p = grind arith in
    digits_unique p q' r' (q + 1) 0 lt h (omega (arith, e, full, next))

carry_less :
    (p q r q' r' : ℕ) → r' < p → q' * p + r' ≡ q * p + r + 1 → r + 1 < p → (q' ≡ q) × (r' ≡ r + 1)
carry_less p q r q' r' lt e less = digits_unique p q' r' q (r + 1) lt less (omega (arith, e))

next_digits : (v p : ℕ) → 0 < p → (v + 1) / p * p + (v + 1) % p ≡ v / p * p + v % p + 1
next_digits v p h = omega (arith, div-add-mod' v p, div-add-mod' (v + 1) p)

next_wraps : (v p : ℕ) → 0 < p → (v + 1) % p ≡ 0 → (v + 1) / p ≡ v / p + 1
next_wraps v p h e = elim (Bool-cases (v % p + 1 == p)) [
  | inl full ↦ (carry_full p _ _ _ _ h (mod-lt (v + 1) h) (next_digits v p h) (ground arith)).0
  | inr less ↦
      let lt : v % p + 1 < p = ground (arith, mod-lt v h) in
      absurd (omega (arith, e, (carry_less p _ _ _ _ (mod-lt (v + 1) h) (next_digits v p h) lt).1))
]

next_stays : (v p : ℕ) → 0 < p → (v + 1) % p ≢ 0 → (v + 1) / p ≡ v / p
next_stays v p h e = elim (Bool-cases (v % p + 1 == p)) [
  | inl full ↦
      absurd (e (carry_full p _ _ _ _ h (mod-lt (v + 1) h) (next_digits v p h) (ground arith)).1)
  | inr less ↦
      let lt : v % p + 1 < p = ground (arith, mod-lt v h) in
      (carry_less p _ _ _ _ (mod-lt (v + 1) h) (next_digits v p h) lt).0
]

times_eq_zero : (x p : ℕ) → 0 < p → (x * p == 0) ≡ (x == 0)
times_eq_zero zero p h = ground arith
times_eq_zero (suc x) p h = let big : p ≤ suc x * p = grind arith in ground arith

inc_bytes-be_bytes :
    (k v : ℕ) → inc_bytes (be_bytes k v) ≡ ((v + 1) % 256 ^ k == 0, be_bytes k (v + 1))
unfolding inc_bytes be_bytes
inc_bytes-be_bytes zero v =
    let whole : (v + 1) % 1 ≡ 0 = omega arith in ap (λ (b : ℕ). (b == 0, [])) (sym whole)
inc_bytes-be_bytes (suc k) v = elim (Bool-cases ((v + 1) % 256 ^ k == 0)) [
  | inl wraps ↦
      let none_left : (v + 1) % 256 ^ k ≡ 0 = ground arith in
      let digit : (v / 256 ^ k % 256 + 1) % 256 ≡ (v + 1) / 256 ^ k % 256 =
        omega (arith, next_wraps v (256 ^ k) (pow_pos k) none_left) in
      let all : (v + 1) % 256 ^ suc k ≡ (v + 1) / 256 ^ k % 256 * 256 ^ k =
        rw pow-succ' (omega (arith, mod_split (v + 1) (256 ^ k) (pow_pos k), none_left)) in
      rw (inc_bytes-be_bytes k v, wraps, digit, all)
        (ap (λ (b : Bool). (b, (v + 1) / 256 ^ k % 256 ∷ be_bytes k (v + 1)))
          (sym (times_eq_zero ((v + 1) / 256 ^ k % 256) (256 ^ k) (pow_pos k))))
  | inr stays ↦
      let some_left : (v + 1) % 256 ^ k ≢ 0 = ground arith in
      let digit : v / 256 ^ k ≡ (v + 1) / 256 ^ k =
        sym (next_stays v (256 ^ k) (pow_pos k) some_left) in
      let all : ((v + 1) % 256 ^ suc k == 0) ≡ false =
        rw (pow-succ', mod_split (v + 1) (256 ^ k) (pow_pos k)) (ground arith) in
      rw (inc_bytes-be_bytes k v, stays, digit, all) refl
]

-- incNonce takes the nonce of a chunk to that of the chunk behind it.
pub inc_nonce-nonce_at :
    (k : ℕ) → k + 1 < 256 ^ 11 → inc_nonce (nonce_at k) ≡ some (nonce_at (k + 1))
unfolding inc_nonce nonce_at
inc_nonce-nonce_at k h =
    let more : ((k + 1) % 256 ^ 11 == 0) ≡ false = ground arith in
    rw (inc_bytes-be_bytes 11 k, more) refl

-- The flag of the last chunk does not matter to incNonce.
pub inc_nonce-last :
    (k : ℕ)
    → k + 1 < 256 ^ 11
    → inc_nonce (set_last_chunk_flag (nonce_at k)) ≡ some (set_last_chunk_flag (nonce_at (k + 1)))
unfolding inc_nonce nonce_at
inc_nonce-last k h =
    let more : ((k + 1) % 256 ^ 11 == 0) ≡ false = ground arith in
    rw (inc_bytes-be_bytes 11 k, more) refl

-- The nonce that random access computes is the one that counting reaches.
pub nonce_for_chunk-nonce_at : (index : ℕ) → index < 2 ^ 64 → nonce_for_chunk index ≡ nonce_at index
unfolding nonce_for_chunk nonce_at be_bytes
nonce_for_chunk-nonce_at index h =
    let ninth : index / 256 ^ 8 % 256 ≡ 0 = omega arith in
    let tenth : index / 256 ^ 9 % 256 ≡ 0 = omega arith in
    let eleventh : index / 256 ^ 10 % 256 ≡ 0 = omega arith in rw (ninth, tenth, eleventh) refl

-- incNonce takes the nonce of every chunk to that of the chunk behind it, as nonceForChunk computes
-- them, so that sequential and random access agree on the nonces.
pub inc_nonce-nonce_for_chunk :
    (index : ℕ)
    → index + 1 < 2 ^ 64
    → inc_nonce (nonce_for_chunk index) ≡ some (nonce_for_chunk (index + 1))
inc_nonce-nonce_for_chunk index h =
    rw
      (
        nonce_for_chunk-nonce_at index (omega arith),
        nonce_for_chunk-nonce_at (index + 1) (omega arith),
      )
      (inc_nonce-nonce_at index (omega arith))

all_zero-be_value : (bs : Bytes) → all_zero bs ≡ true → be_value bs ≡ 0
unfolding all_zero be_value
all_zero-be_value [] h = refl
all_zero-be_value (b ∷ bs) h =
    let first : b ≡ 0 = ground arith in
    let rest : all_zero bs ≡ true = ground arith in
    rw (first, all_zero-be_value bs rest) (omega arith)

all_zero-append : (bs cs : Bytes) → all_zero (bs ++ cs) ≡ true → all_zero bs ≡ true
unfolding all_zero
all_zero-append [] cs h = refl
all_zero-append (b ∷ bs) cs h = ground (arith, all_zero-append bs cs)

pub nonce_is_zero-nonce_at : (k : ℕ) → k < 256 ^ 11 → nonce_is_zero (nonce_at k) ≡ true → k ≡ 0
unfolding nonce_is_zero nonce_at
nonce_is_zero-nonce_at k h z =
    sym (be_value-be_bytes 11 k h) ∙ all_zero-be_value _ (all_zero-append (be_bytes 11 k) _ z)
