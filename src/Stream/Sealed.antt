-- ===== src/Stream/Sealed.antt =====
-- What package stream (stream/stream.go) promises of a ciphertext, independent of the code: chunks
-- of the full size, each sealed with the nonce of its place, and behind them the last chunk, which
-- is empty only if it is the only one.
use darkbio_crypto_go.Base.{
  ℕ, zero, suc, ◌≤◌, ◌<◌, ◌≡◌, ◌⊎◌, [], ◌++◌, length, length-append, arith,
}
use darkbio_crypto_go.Stream.Types.{Bytes, Aead, chunk_size, chunk_size_pos}
use darkbio_crypto_go.Stream.Nonce.{nonce_at, nonce_bytes, set_last_chunk_flag}

-- The first chunks, as many as the number says.
pub data Chunks (a : Aead) : ℕ → Bytes → Bytes → Type 0 where
  no_chunk : Chunks a zero [] []
  chunk :
      {k : ℕ} {plain cipher : Bytes} (c : Bytes)
      → Chunks a k plain cipher
      → length c ≡ chunk_size
      → Chunks a (suc k) (plain ++ c) (cipher ++ a.seal (nonce_bytes (nonce_at k)) c)

-- A whole message.
pub data Sealed (a : Aead) : Bytes → Bytes → Type 0 where
  sealed :
      {k : ℕ} {plain cipher : Bytes} (c : Bytes)
      → Chunks a k plain cipher
      → length c ≤ chunk_size
      → (k ≡ 0) ⊎ (0 < length c)
      → Sealed a (plain ++ c) (cipher ++ a.seal (nonce_bytes (set_last_chunk_flag (nonce_at k))) c)

module _ (a : Aead) where
  pub Chunks-le_length : (k : ℕ) (plain cipher : Bytes) → Chunks a k plain cipher → k ≤ length plain
  Chunks-le_length k plain cipher no_chunk = omega arith
  Chunks-le_length k plain cipher (chunk {k = j} {plain = q} {cipher = r} c h full) =
      omega (arith, Chunks-le_length j q r h, length-append q c, full, chunk_size_pos)
