-- ===== src/Stream/Length.antt =====
-- The sizes that EncryptedChunkCount and PlaintextSize (stream/stream.go) accept, and the sealed
-- messages.
use darkbio_crypto_go.Base.{ℕ, ◌+◌, ◌*◌, ◌≤◌, ◌<◌, ◌≡◌, ◌⊎◌, length, length-append, ◌++◌, arith}
use darkbio_crypto_go.Stream.Types.{Bytes, Aead, AeadLaws, chunk_size}
use darkbio_crypto_go.Stream.Nonce.{nonce_at, nonce_bytes, set_last_chunk_flag}
use darkbio_crypto_go.Stream.Sealed.{Chunks, no_chunk, chunk, Sealed, sealed}
use darkbio_crypto_go.Stream.Size.{encrypted_size}

count_eq :
    (k c p : ℕ)
    → p ≡ k * 65536 + c
    → c ≤ 65536
    → (k ≡ 0) ⊎ (0 < c)
    → encrypted_size p ≡ k * 65552 + (c + 16)
count_eq k c p e le first = ground arith

module _ (a : Aead) (laws : AeadLaws a) where
  Chunks-length :
      (k : ℕ) (plain cipher : Bytes)
      → Chunks a k plain cipher
      → (length plain ≡ k * 65536) × (length cipher ≡ k * 65552)
  unfolding chunk_size
  Chunks-length k plain cipher no_chunk = (omega arith, omega arith)
  Chunks-length k plain cipher (chunk {k = j} {plain = p} {cipher = s} c h fits) =
      let (of_plain, of_cipher) = Chunks-length j p s h in
      let sent = a.seal (nonce_bytes (nonce_at j)) c in
      (
        omega (arith, of_plain, length-append p c, fits),
        omega (
          arith,
          of_cipher,
          length-append s sent,
          laws.length_seal (nonce_bytes (nonce_at j)) c,
          fits,
        ),
      )

  -- A sealed message has the size that PlaintextSize expects for its plaintext.
  pub length-Sealed :
      (plain cipher : Bytes) → Sealed a plain cipher → length cipher ≡ encrypted_size (length plain)
  unfolding chunk_size
  length-Sealed plain cipher (sealed {k = k} {plain = p} {cipher = s} c h fits first) =
      let (of_plain, of_cipher) = Chunks-length k p s h in
      let sent = a.seal (nonce_bytes (set_last_chunk_flag (nonce_at k))) c in
      let size =
        count_eq k (length c) (length (p ++ c)) (omega (arith, length-append p c, of_plain)) fits
          first in
      omega (
        arith,
        size,
        of_cipher,
        length-append s sent,
        laws.length_seal (nonce_bytes (set_last_chunk_flag (nonce_at k))) c,
      )
