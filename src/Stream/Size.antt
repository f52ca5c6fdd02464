-- ===== src/Stream/Size.antt =====
-- EncryptedChunkCount and PlaintextSize of stream/stream.go. An int64 is its two's complement, a
-- number below 2 ^ 64, so that the sums wrap around as in Go.
use darkbio_crypto_go.Base.{
  ℕ, ◌+◌, ◌*◌, ◌-◌, ◌/◌, ◌%◌, ◌^◌, ◌≤◌, ◌<◌, ◌≡◌, ◌↔◌, refl, sym, ap, ◌∙◌, true, Option, some, none,
  inl, inr, Bool-cases, ltb, ◌==◌, if◌then◌else◌, arith,
}
use darkbio_crypto_go.Stream.Types.{chunk_size, enc_chunk_size, overhead}

abbrev pub add64 : ℕ → ℕ → ℕ
add64 a b = (a + b) % 2 ^ 64

abbrev pub sub64 : ℕ → ℕ → ℕ
sub64 a b = (a + (2 ^ 64 - b)) % 2 ^ 64

abbrev pub mul64 : ℕ → ℕ → ℕ
mul64 a b = a * b % 2 ^ 64

-- Division by a positive number, towards zero.
abbrev pub div64 : ℕ → ℕ → ℕ
div64 a b = if ltb a (2 ^ 63) then a / b else (2 ^ 64 - (2 ^ 64 - a) / b) % 2 ^ 64

-- `(n + unit - 1) / unit`
unfoldable pub chunks_of : ℕ → ℕ → ℕ
chunks_of n size = div64 (sub64 (add64 n size) 1) size

unfoldable pub without_tags : ℕ → ℕ → ℕ
without_tags encrypted_size chunks = sub64 encrypted_size (mul64 chunks overhead)

-- An empty plaintext is the only case that allows (and requires) an empty chunk.
unfoldable pub expected_chunks : ℕ → ℕ
unfolding chunks_of chunk_size
expected_chunks plaintext_size =
    if plaintext_size == 0 then 1 else chunks_of plaintext_size chunk_size

-- `none` is the error "invalid encrypted payload size".
unfoldable pub encrypted_chunk_count : ℕ → Option ℕ
unfolding chunks_of without_tags expected_chunks chunk_size
encrypted_chunk_count encrypted_size =
    let chunks = chunks_of encrypted_size enc_chunk_size in
    if expected_chunks (without_tags encrypted_size chunks) == chunks then some chunks else none

unfoldable pub plaintext_size : ℕ → Option ℕ
unfolding encrypted_chunk_count without_tags
plaintext_size encrypted_size = elim (encrypted_chunk_count encrypted_size) [
  | none ↦ none
  | some chunks ↦ some (without_tags encrypted_size chunks)
]

-- The chunks of a plaintext, and its size with a tag behind each of them.
abbrev pub chunk_count : ℕ → ℕ
chunk_count p = if p == 0 then 1 else (p + 65535) / 65536

abbrev pub encrypted_size : ℕ → ℕ
encrypted_size p = p + 16 * chunk_count p

tagged_chunks-eq : (n : ℕ) → n < 2 ^ 63 - 65552 → chunks_of n enc_chunk_size ≡ (n + 65551) / 65552
unfolding chunks_of chunk_size
tagged_chunks-eq n h = ground arith

plain_chunks-eq : (n : ℕ) → n < 2 ^ 63 - 65552 → expected_chunks n ≡ chunk_count n
unfolding expected_chunks chunks_of chunk_size
plain_chunks-eq n h = ground arith

-- The plaintext of a size that is at least one tag, and of one that is less.
without_tags-eq : (n q : ℕ) → 16 * q ≤ n → n < 2 ^ 63 → without_tags n q ≡ n - 16 * q
unfolding without_tags
without_tags-eq n q h lt = omega arith

below_one_tag : (n : ℕ) → n < 16 → expected_chunks (without_tags n 1) ≡ 0
unfolding expected_chunks without_tags chunks_of chunk_size
below_one_tag n h = ground arith

-- The chunks of n - 16 * q bytes, where q chunks of at most 65552 bytes make n bytes.
same_count :
    (n q : ℕ)
    → q ≡ (n + 65551) / 65552
    → 16 * q ≤ n
    → chunk_count (n - 16 * q) ≡ q
    → n ≡ encrypted_size (n - 16 * q)
same_count n q e le c = ground arith

encrypted_size-count : (p : ℕ) → (encrypted_size p + 65551) / 65552 ≡ chunk_count p
encrypted_size-count p = ground arith

module _ (n : ℕ) (h : n < 2 ^ 63 - 65552) where
  abbrev chunks : ℕ
  chunks = (n + 65551) / 65552

  plaintext_size_small : n < 16 * chunks → plaintext_size n ≡ none
  unfolding plaintext_size encrypted_chunk_count
  plaintext_size_small less =
      let one : chunks ≡ 1 = omega arith in
      rw
        (
          plaintext_size,
          encrypted_chunk_count,
          tagged_chunks-eq n h,
          one,
          below_one_tag n (omega arith),
        )
        refl

  plaintext_size_large :
      16 * chunks ≤ n
      → plaintext_size n
        ≡ (if chunk_count (n - 16 * chunks) == chunks then some (n - 16 * chunks) else none)
  unfolding plaintext_size encrypted_chunk_count
  plaintext_size_large le =
      rw
        (
          plaintext_size,
          encrypted_chunk_count,
          tagged_chunks-eq n h,
          without_tags-eq n chunks le (omega arith),
          plain_chunks-eq (n - 16 * chunks) (omega arith),
        )
        (ground arith)

chosen : (c q x p : ℕ) → (if c == q then some x else none) ≡ some p → (c ≡ q) × (x ≡ p)
chosen c q x p e = ground arith

pub plaintext_size_iff :
    (n p : ℕ) → n < 2 ^ 63 - 65552 → (plaintext_size n ≡ some p) ↔ (n ≡ encrypted_size p)
plaintext_size_iff n p h = (accepted, complete)
  where
    accepted : plaintext_size n ≡ some p → n ≡ encrypted_size p
    accepted e = elim (Bool-cases (ltb n (16 * chunks n h))) [
      | inl less ↦
          let less' : n < 16 * chunks n h = ground arith in
          let none_ : none ≡ some p = sym (plaintext_size_small n h less') ∙ e in absurd (cc)
      | inr no_less ↦
          let le : 16 * chunks n h ≤ n = ground arith in
          let (count, rest) = chosen _ _ _ p (sym (plaintext_size_large n h le) ∙ e) in
          rw rest at (same_count n (chunks n h) refl le count)
    ]

    complete : n ≡ encrypted_size p → plaintext_size n ≡ some p
    complete e =
        let count : chunks n h ≡ chunk_count p = rw e (encrypted_size-count p) in
        let whole : n ≡ p + 16 * chunks n h = e ∙ ap (λ (c : ℕ). p + 16 * c) (sym count) in
        let rest : n - 16 * chunks n h ≡ p = omega (arith, whole) in
        let equal : (chunk_count p == chunks n h) ≡ true = ground arith in
        plaintext_size_large n h (omega (arith, whole)) ∙ rw (rest, equal) refl

-- The encrypted size of a plaintext has the chunks of the plaintext, and its size without the tags.
pub encrypted_chunk_count-encrypted_size :
    (p : ℕ)
    → p < 2 ^ 62
    → (encrypted_chunk_count (encrypted_size p) ≡ some (chunk_count p))
      × (without_tags (encrypted_size p) (chunk_count p) ≡ p)
unfolding encrypted_chunk_count
encrypted_chunk_count-encrypted_size p small =
    let n = encrypted_size p in
    let below : n < 2 ^ 63 - 65552 = ground arith in
    let count : chunks_of n enc_chunk_size ≡ chunk_count p =
      tagged_chunks-eq n below ∙ encrypted_size-count p in
    let plain : without_tags n (chunk_count p) ≡ p =
      without_tags-eq n (chunk_count p) (omega arith) (omega (arith, below)) ∙ omega arith in
    let expected : expected_chunks p ≡ chunk_count p = plain_chunks-eq p (omega (arith, small)) in
    let same : chunk_count p == chunk_count p ≡ true = equal_self (chunk_count p) in
    (rw (encrypted_chunk_count, count, plain, expected, same), plain)
  where
    equal_self : (c : ℕ) → c == c ≡ true
    equal_self c = ground arith
