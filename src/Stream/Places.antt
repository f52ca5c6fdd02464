-- ===== src/Stream/Places.antt =====
-- Where the chunks of a sealed message stand, for DecryptReaderAt of stream/stream.go.
use darkbio_crypto_go.Base.{
  ℕ, suc, ◌+◌, ◌*◌, ◌-◌, ◌<◌, ◌≡◌, refl, sym, ap, ◌∙◌, ◌⊎◌, inl, inr, true, false, ◌++◌, min,
  length, length-append, take, drop, take-append, drop-append, drop-drop, whole_taken, take-length,
  ◌==◌, leb, le→leb, if◌then◌else◌, Bool-cases, arith,
}
use darkbio_crypto_go.Stream.Types.{Bytes, Aead, AeadLaws, chunk_size, enc_chunk_size}
use darkbio_crypto_go.Stream.Nonce.{Nonce, nonce_at, nonce_bytes, set_last_chunk_flag}
use darkbio_crypto_go.Stream.Draining.{Rest, at_last, more}
use darkbio_crypto_go.Stream.Unique.{Rest-pos}

take_prefix : (n : ℕ) (xs ys : Bytes) → length xs ≡ n → take n (xs ++ ys) ≡ xs
take_prefix n xs ys h = ap (λ (m : ℕ). take m (xs ++ ys)) (sym h) ∙ take-append xs ys

drop_past : (n m : ℕ) (xs ys : Bytes) → n ≡ length xs + m → drop n (xs ++ ys) ≡ drop m ys
drop_past n m xs ys h =
    ap (λ (l : ℕ). drop l (xs ++ ys)) h
    ∙ sym (drop-drop (length xs) m (xs ++ ys))
    ∙ ap (λ (l : Bytes). drop m l) (drop-append xs ys)

pub take-min : (n : ℕ) (xs : Bytes) → take (min (length xs) n) xs ≡ take n xs
take-min n xs = elim (Bool-cases (leb (length xs) n)) [
  | inl short ↦
      let e : min (length xs) n ≡ length xs = ground arith in
      ap (λ (m : ℕ). take m xs) e ∙ take-length xs ∙ sym (whole_taken n xs (ground arith)).0
  | inr long ↦ let e : min (length xs) n ≡ n = ground arith in ap (λ (m : ℕ). take m xs) e
]

-- The nonce of chunk `k` where `left` bytes of plaintext are left before it.
abbrev pub nonce_with : ℕ → ℕ → Nonce
nonce_with k left = if leb left 65536 then set_last_chunk_flag (nonce_at k) else nonce_at k

pub chunk_size-eq : chunk_size ≡ 65536
unfolding chunk_size
chunk_size-eq = refl

module _ (a : Aead) (laws : AeadLaws a) where
  -- What is at chunk `i` of the ciphertext opens to what is at chunk `i` of the plaintext.
  abbrev pub Placed : ℕ → ℕ → Bytes → Bytes → Type 0
  Placed k i p c =
      take enc_chunk_size (drop (i * 65552) c)
      ≡ a.seal (nonce_bytes (nonce_with (k + i) (length p - i * 65536)))
          (take chunk_size (drop (i * 65536) p))

  at_start :
      (k i : ℕ) (p c d : Bytes)
      → i ≡ 0
      → take enc_chunk_size c ≡ a.seal (nonce_bytes (nonce_with k (length p))) d
      → take chunk_size p ≡ d
      → Placed k i p c
  at_start k i p c d z sent plain =
      let cipher_at : i * 65552 ≡ 0 = omega (arith, z) in
      let plain_at : i * 65536 ≡ 0 = omega (arith, z) in
      let left : length p - 0 ≡ length p = omega arith in
      let place : k + i ≡ k = omega (arith, z) in rw (cipher_at, plain_at, left, place, plain) sent

  pub chunk_place :
      (k i : ℕ) (p c : Bytes) → Rest a k p c → (i ≡ 0) ⊎ (i * 65536 < length p) → Placed k i p c
  chunk_place k i p c (at_last d fits first) h =
      let z : i ≡ 0 = elim h [ inl z ↦ z | inr lt ↦ omega (arith, lt, fits, chunk_size-eq) ] in
      let sent = a.seal (nonce_bytes (set_last_chunk_flag (nonce_at k))) p in
      let last : leb (length p) 65536 ≡ true =
        le→leb (length p) 65536 (omega (arith, fits, chunk_size-eq)) in
      let size = laws.length_seal (nonce_bytes (set_last_chunk_flag (nonce_at k))) p in
      at_start k i p sent p z
        (rw last ((whole_taken enc_chunk_size sent (omega (arith, size, fits))).0))
        (whole_taken chunk_size p fits).0
  chunk_place k i p c (more {plain = q} {cipher = s} d full r) h =
      let sent = a.seal (nonce_bytes (nonce_at k)) d in
      let size : length sent ≡ enc_chunk_size =
        omega (arith, laws.length_seal (nonce_bytes (nonce_at k)) d, full) in
      let some_left = Rest-pos a k q s r in
      elim (Bool-cases (i == 0)) [
        | inl start ↦
            let later : leb (length (d ++ q)) 65536 ≡ false =
              ground (arith, length-append d q, full, chunk_size-eq, some_left) in
            at_start k i (d ++ q) (sent ++ s) d (ground arith)
              (rw later (take_prefix enc_chunk_size sent s size)) (take_prefix chunk_size d q full)
        | inr behind ↦
            let j = i - 1 in
            let next : i ≡ suc j = ground arith in
            let h' : (j ≡ 0) ⊎ (j * 65536 < length q) = elim h [
              | inl z ↦ absurd (omega (arith, z, next))
              | inr lt ↦ inr (omega (arith, lt, next, length-append d q, full, chunk_size-eq))
            ] in
            let cipher_at : drop (i * 65552) (sent ++ s) ≡ drop (j * 65552) s =
              drop_past (i * 65552) (j * 65552) sent s (omega (arith, next, size, chunk_size-eq)) in
            let plain_at : drop (i * 65536) (d ++ q) ≡ drop (j * 65536) q =
              drop_past (i * 65536) (j * 65536) d q (omega (arith, next, full, chunk_size-eq)) in
            let left : length (d ++ q) - i * 65536 ≡ length q - j * 65536 =
              omega (arith, next, length-append d q, full, chunk_size-eq) in
            let place : k + i ≡ suc k + j = omega (arith, next) in
            rw (cipher_at, plain_at, left, place) (chunk_place (suc k) j q s r h')
      ]
