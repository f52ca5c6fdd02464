-- ===== src/Stream/Progress.antt =====
-- How far a DecryptReader (stream/stream.go) has come with a ciphertext.
use darkbio_crypto_go.Base.{
  ℕ, ◌≤◌, ◌<◌, ◌≡◌, ◌≢◌, sym, ap, ◌∙◌, some, none, [], ◌++◌, append_assoc, length, length-append,
  take, drop, take-append-drop, arith,
}
use darkbio_crypto_go.Stream.Types.{Bytes, StreamError, eof, Aead, AeadLaws}
use darkbio_crypto_go.Stream.Nonce.{nonce_bytes, nonce_at}
use darkbio_crypto_go.Stream.Reader.{DecryptReader, deliver}
use darkbio_crypto_go.Stream.Sealed.{Chunks, no_chunk, chunk, Sealed}

-- After an error.
pub record Failed (r : DecryptReader) : Type 0 where
  pub kept : StreamError
  pub has_error : r.error ≡ some kept
  pub not_eof : kept ≢ eof
  pub nothing : r.unread ≡ []

pub split_at : (out u : Bytes) (n : ℕ) → out ++ u ≡ out ++ take n u ++ drop n u
split_at out u n =
    ap (λ (x : Bytes). out ++ x) (sym (take-append-drop n u)) ∙ sym (append_assoc out _ _)

module _ (a : Aead) (laws : AeadLaws a) where
  pub Chunks-le_cipher :
      (k : ℕ) (plain cipher : Bytes) → Chunks a k plain cipher → k ≤ length cipher
  Chunks-le_cipher k plain cipher no_chunk = omega arith
  Chunks-le_cipher k plain cipher (chunk {k = j} {plain = q} {cipher = r} c h fits) =
      let sent = a.seal (nonce_bytes (nonce_at j)) c in
      omega (
        arith,
        Chunks-le_cipher j q r h,
        length-append r sent,
        laws.length_seal (nonce_bytes (nonce_at j)) c,
      )

module _ (a : Aead) where
  -- Between two chunks, or inside one: `out` has been delivered, `opened` has been read.
  pub record Open (cipher out : Bytes) (r : DecryptReader) : Type 0 where
    pub k : ℕ
    pub plain : Bytes
    pub opened : Bytes
    pub chunks : Chunks a k plain opened
    pub read_so_far : cipher ≡ opened ++ r.src.rest
    pub delivered : plain ≡ out ++ r.unread
    pub nonce_of : r.nonce ≡ nonce_at k
    pub no_error : r.error ≡ none

  -- Behind the last chunk.
  pub record Ended (cipher out : Bytes) (r : DecryptReader) : Type 0 where
    pub plain : Bytes
    pub opened : Bytes
    pub message : Sealed a plain opened
    pub delivered : plain ≡ out ++ r.unread
    pub kept : StreamError
    pub has_error : r.error ≡ some kept
    pub whole : kept ≡ eof → cipher ≡ opened

  -- What holds of a reader of `cipher` that has delivered `out`.
  pub data Reads (cipher out : Bytes) (r : DecryptReader) : Type 0 where
    is_open : r.aead ≡ a → Open cipher out r → Reads cipher out r
    is_ended : Ended cipher out r → Reads cipher out r
    is_failed : Failed r → Reads cipher out r

  pub deliver-Open :
      (cipher out : Bytes) (n : ℕ) (r : DecryptReader)
      → Open cipher out r
      → Open cipher (out ++ (deliver n r).0) (deliver n r).1
  deliver-Open cipher out n r o = record {
    k = o.k;
    plain = o.plain;
    opened = o.opened;
    chunks = o.chunks;
    read_so_far = o.read_so_far;
    delivered = o.delivered ∙ split_at out r.unread n;
    nonce_of = o.nonce_of;
    no_error = o.no_error;
  }

  deliver-Ended :
      (cipher out : Bytes) (n : ℕ) (r : DecryptReader)
      → Ended cipher out r
      → Ended cipher (out ++ (deliver n r).0) (deliver n r).1
  deliver-Ended cipher out n r e = record {
    plain = e.plain;
    opened = e.opened;
    message = e.message;
    delivered = e.delivered ∙ split_at out r.unread n;
    kept = e.kept;
    has_error = e.has_error;
    whole = e.whole;
  }

  pub deliver-Reads :
      (cipher out : Bytes) (n : ℕ) (r : DecryptReader)
      → Reads cipher out r
      → 0 < length r.unread
      → Reads cipher (out ++ (deliver n r).0) (deliver n r).1
  deliver-Reads cipher out n r (is_open s o) more = is_open s (deliver-Open cipher out n r o)
  deliver-Reads cipher out n r (is_ended e) more = is_ended (deliver-Ended cipher out n r e)
  deliver-Reads cipher out n r (is_failed f) more =
      absurd (omega (arith, ap length f.nothing, more))
