-- ===== src/Stream/Unique.antt =====
-- A plaintext has one sealed message, so that EncryptWriter and EncryptReader (stream/stream.go)
-- agree.
use darkbio_crypto_go.Base.{
  ℕ, suc, ◌<◌, ◌≡◌, inl, inr, refl, sym, ap, ap₂, ◌∙◌, ◌++◌, length, length-append, take, drop,
  take-append, drop-append, arith,
}
use darkbio_crypto_go.Stream.Types.{Bytes, Aead, chunk_size_pos}
use darkbio_crypto_go.Stream.Nonce.{nonce_at, nonce_bytes, set_last_chunk_flag}
use darkbio_crypto_go.Stream.Sealed.{Sealed}
use darkbio_crypto_go.Stream.Draining.{Rest, at_last, more, Sealed-Rest}

append_unique : (c d p q : Bytes) → length c ≡ length d → c ++ p ≡ d ++ q → (c ≡ d) × (p ≡ q)
append_unique c d p q len e = (
  sym (take-append c p) ∙ ap₂ (λ (n : ℕ) (x : Bytes). take n x) len e ∙ take-append d q,
  sym (drop-append c p) ∙ ap₂ (λ (n : ℕ) (x : Bytes). drop n x) len e ∙ drop-append d q,
)

module _ (a : Aead) where
  pub Rest-pos : (k : ℕ) (p c : Bytes) → Rest a (suc k) p c → 0 < length p
  Rest-pos k p c (at_last d fits first) = elim first [
    | inl zero_ ↦ absurd (omega (arith, zero_))
    | inr some_ ↦ some_
  ]
  Rest-pos k p c (more {plain = q} d fits r) =
      omega (arith, length-append d q, fits, chunk_size_pos)

  Rest-unique : (k : ℕ) (p q c d : Bytes) → Rest a k p c → Rest a k q d → p ≡ q → c ≡ d
  Rest-unique k p q c d (at_last x fits first) (at_last y fits' first') e =
      ap (a.seal (nonce_bytes (set_last_chunk_flag (nonce_at k)))) e
  Rest-unique k p q c d (at_last x fits first) (more {plain = q'} {cipher = d'} y full s) e =
      absurd (omega (arith, fits, full, ap length e, length-append y q', Rest-pos k q' d' s))
  Rest-unique k p q c d (more {plain = p'} {cipher = c'} x full r) (at_last y fits first) e =
      absurd (omega (arith, fits, full, ap length e, length-append x p', Rest-pos k p' c' r))
  Rest-unique k p q c d (more {plain = p'} {cipher = c'} x full r)
        (more {plain = q'} {cipher = d'} y full' s) e =
      let (same, rest) = append_unique x y p' q' (full ∙ sym full') e in
      ap₂ (λ (z w : Bytes). a.seal (nonce_bytes (nonce_at k)) z ++ w) same
        (Rest-unique (suc k) p' q' c' d' r s rest)

  -- A plaintext has only one sealed message.
  pub Sealed-unique :
      (plain cipher other : Bytes) → Sealed a plain cipher → Sealed a plain other → cipher ≡ other
  Sealed-unique plain cipher other s t =
      Rest-unique 0 plain plain cipher other (Sealed-Rest a plain cipher s)
        (Sealed-Rest a plain other t) refl
