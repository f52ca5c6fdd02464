-- ===== src/Stream/EncryptReader.antt =====
-- EncryptReader of stream/stream.go.
use darkbio_crypto_go.Base.{
  ℕ, ◌+◌, ◌-◌, min, Option, some, none, [], ◌++◌, length, take, drop, leb, ltb, ◌==◌, not,
  if◌then◌else◌,
}
use darkbio_crypto_go.Stream.Types.{
  Bytes, StreamError, eof, Run, done, panic, Aead, chunk_size, enc_chunk_size, unless_failed,
}
use darkbio_crypto_go.Stream.Nonce.{Nonce, nonce_bytes, new_nonce, set_last_chunk_flag, inc_nonce}
use darkbio_crypto_go.Stream.Reader.{Source, Outcome, value, error}

-- The first `ready` bytes of the buffer are encrypted.
pub record EncryptReader : Type 0 where
  pub aead : Aead
  pub src : Source
  pub ready : ℕ
  pub buf : Bytes
  pub nonce : Nonce
  pub failure : Option StreamError

unfoldable pub new_encrypt_reader : (Bytes → Option Aead) → Bytes → Source → Option EncryptReader
new_encrypt_reader new_aead key src = elim (new_aead key) [
  | none ↦ none
  | some aead ↦
      some
        (record { aead = aead; src = src; ready = 0; buf = []; nonce = new_nonce; failure = none })
]

-- io.CopyN: the bytes copied are in the buffer also where it fails. io.EOF is not taken as an error.
abbrev pub end_error : StreamError → Option StreamError
end_error eof = none
end_error e = some e

abbrev pub copy_error : ℕ → Source → Option StreamError
copy_error n src = if leb n (length src.rest) then none else end_error src.ending

abbrev pub copied : ℕ → EncryptReader → EncryptReader
copied n r = record r {
  src = record { rest = drop n r.src.rest; ending = r.src.ending };
  buf = r.buf ++ take n r.src.rest;
}

-- The nonce after Seal, which panics where the counter wraps around.
abbrev pub counted :
    Option Nonce
    → (Nonce → Run EncryptReader (Option StreamError))
    → Run EncryptReader (Option StreamError)
counted none f = panic
counted (some nonce) f = f nonce

unfoldable pub seal_last : EncryptReader → Run EncryptReader (Option StreamError)
seal_last r =
    let sent = r.aead.seal (nonce_bytes (set_last_chunk_flag r.nonce)) r.buf in
    counted (inc_nonce (set_last_chunk_flag r.nonce)) λ nonce.
      done none (record r { buf = sent; ready = length sent; nonce = nonce; failure = some eof })

-- One byte behind the chunk stays unencrypted, and is moved behind the tag.
unfoldable pub seal_chunk : EncryptReader → Run EncryptReader (Option StreamError)
seal_chunk r =
    let sent = r.aead.seal (nonce_bytes r.nonce) (take chunk_size r.buf) in
    if not (length r.buf == chunk_size + 1)
    then panic
    else counted (inc_nonce r.nonce) λ nonce.
      done none
        (record r { buf = sent ++ drop chunk_size r.buf; ready = enc_chunk_size; nonce = nonce })

-- The buffer holds at most one byte here, so that the subtraction is Go's.
unfoldable pub feed_buffer : EncryptReader → Run EncryptReader (Option StreamError)
feed_buffer r =
    let n = chunk_size - length r.buf + 1 in
    let filled = copied n r in
    if ltb 0 r.ready then panic else elim (copy_error n r.src) [
      | some e ↦ done (some e) filled
      | none ↦ if leb (length filled.buf) chunk_size then seal_last filled else seal_chunk filled
    ]

-- `r.buf.Read(p[:min(len(p), r.ready)])` for a buffer p of `n` bytes.
abbrev pub hand_out : ℕ → EncryptReader → Run EncryptReader (Outcome Bytes)
hand_out n r =
    let m = min n r.ready in
    done (value (take m r.buf)) (record r { buf = drop m r.buf; ready = r.ready - m })

unfoldable pub after_feed :
    ℕ → Run EncryptReader (Option StreamError) → Run EncryptReader (Outcome Bytes)
after_feed n panic = panic
after_feed n (done (some e) r) = done (error e) (record r { failure = some e })
after_feed n (done none r) = hand_out n r

unfoldable pub read_encrypted : ℕ → EncryptReader → Run EncryptReader (Outcome Bytes)
read_encrypted n r =
    if ltb 0 r.ready
    then hand_out n r
    else unless_failed r.failure (λ e. done (error e) r)
        (if n == 0 then done (value []) r else after_feed n (feed_buffer r))
