-- ===== src/Stream/RoundTrip.antt =====
-- EncryptWriter, EncryptReader and DecryptReader (stream/stream.go) together.
use darkbio_crypto_go.Base.{
  ℕ, suc, ◌-◌, ◌^◌, ◌≤◌, ◌<◌, ◌≡◌, refl, none, some, List, [], ◌++◌, length, arith, Option,
}
use darkbio_crypto_go.Stream.Types.{Bytes, StreamError, eof, done, Aead, AeadLaws, chunk_size}
use darkbio_crypto_go.Stream.Nonce.{nonce_at, nonce_bytes, new_nonce, set_last_chunk_flag}
use darkbio_crypto_go.Stream.Size.{encrypted_size, plaintext_size, plaintext_size_iff}
use darkbio_crypto_go.Stream.Writer.{EncryptWriter}
use darkbio_crypto_go.Stream.Writing.{write_all, concat, write_all-Sealed}
use darkbio_crypto_go.Stream.Reader.{DecryptReader}
use darkbio_crypto_go.Stream.Draining.{read_all, read_all-Sealed}
use darkbio_crypto_go.Stream.Length.{length-Sealed}
use darkbio_crypto_go.Stream.EncryptReader.{EncryptReader, read_encrypted}
use darkbio_crypto_go.Stream.Encrypting.{Encryption, read_encrypted-Sealed}
use darkbio_crypto_go.Stream.Reader.{error}
use darkbio_crypto_go.Stream.Unique.{Sealed-unique}

-- An underlying writer that keeps everything.
abbrev pub keep : Bytes → Bytes → Option StreamError × Bytes
keep d b = (none, d ++ b)

abbrev pub writer_of : Aead → EncryptWriter Bytes
writer_of a = record { aead = a; dst = []; buf = []; nonce = new_nonce; error = none }

abbrev pub reader_of : Aead → Bytes → DecryptReader
reader_of a cipher = record {
  aead = a;
  src = record { rest = cipher; ending = eof };
  unread = [];
  nonce = new_nonce;
  error = none;
}

size_bound : (p : ℕ) → p < 2 ^ 60 → encrypted_size p < 2 ^ 63 - 65552
size_bound p h = ground arith

-- A plaintext below 2 ^ 60 bytes, written in any pieces and closed, is read back by a client whose
-- buffer holds a chunk, up to io.EOF, and PlaintextSize tells its size from that of the ciphertext.
-- The chunks of the cipher must open with no other flag than they were sealed with.
pub read_all-write_all :
    (a : Aead) (laws : AeadLaws a) (n : ℕ) (ps : List Bytes)
    → ((k : ℕ) (p : Bytes)
        → a.open_
            (nonce_bytes (nonce_at k))
            (a.seal (nonce_bytes (set_last_chunk_flag (nonce_at k))) p)
          ≡ none)
    → chunk_size ≤ n
    → length (concat ps) < 2 ^ 60
    → (w : EncryptWriter Bytes) × (write_all a keep (λ d. d) (λ d b. (refl, refl)) ps (writer_of a)
        ≡ done none w)
      × (read_all n (suc (length w.dst)) (reader_of a w.dst) ≡ some (concat ps, eof))
      × (plaintext_size (length w.dst) ≡ some (length (concat ps)))
read_all-write_all a laws n ps flag room small =
    let plain = concat ps in
    let (w, run, s) =
      write_all-Sealed a keep (λ d. d) (λ d b. (refl, refl)) ps [] refl (omega arith) in
    let size = length-Sealed a laws plain w.dst s in
    let bound = size_bound (length plain) small in
    (
      w,
      run,
      read_all-Sealed a laws flag n room plain w.dst s (omega (arith, size, bound)),
      (plaintext_size_iff (length w.dst) (length plain) (omega (arith, size, bound))).1 size,
    )

-- For a plaintext below 2 ^ 80 bytes, an EncryptReader that has been read to io.EOF, in reads of any
-- size, has delivered the bytes that an EncryptWriter writes, in whatever pieces it is given the
-- plaintext.
pub read_encrypted-write_all :
    (a : Aead) (laws : AeadLaws a) (n : ℕ) (ps : List Bytes) (out : Bytes) (r r' : EncryptReader)
    → length (concat ps) < 2 ^ 80
    → Encryption a laws (record { rest = concat ps; ending = eof }) out r
    → read_encrypted n r ≡ done (error eof) r'
    → (w : EncryptWriter Bytes) × (write_all a keep (λ d. d) (λ d b. (refl, refl)) ps (writer_of a)
        ≡ done none w)
      × (out ≡ w.dst)
read_encrypted-write_all a laws n ps out r r' small s end =
    let (w, run, written) =
      write_all-Sealed a keep (λ d. d) (λ d b. (refl, refl)) ps [] refl small in
    let delivered = (read_encrypted-Sealed a laws _ out r n small s).1 r' end in
    (w, run, Sealed-unique a (concat ps) out w.dst delivered written)
