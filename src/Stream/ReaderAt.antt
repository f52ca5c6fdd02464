-- ===== src/Stream/ReaderAt.antt =====
-- DecryptReaderAt of stream/stream.go. The io.ReaderAt is a function from the length of the buffer
-- and the offset to the bytes read and the error. An int64 is its two's complement, as in
-- Stream.Size; the offset and the sizes of a reader are not negative. The plaintext of a chunk lies in
-- the buffer `chunk`, which is filled again only where the update of the cache is replaced.
use darkbio_crypto_go.Base.{
  ℕ, zero, suc, ◌-◌, ◌/◌, ◌^◌, min, Option, some, none, Bool, ◌&&◌, not, [], ◌++◌, length, take,
  drop, leb, ltb, ◌==◌, if◌then◌else◌,
}
use darkbio_crypto_go.Base.Int.{ℤ, pos, negsuc}
use darkbio_crypto_go.Stream.Types.{
  Bytes, StreamError, eof, unexpected_eof, invalid_key, invalid_size, corrupted, Aead, chunk_size,
  enc_chunk_size, overhead,
}
use darkbio_crypto_go.Stream.Nonce.{Nonce, nonce_bytes, set_last_chunk_flag, nonce_for_chunk}
use darkbio_crypto_go.Stream.Size.{add64, sub64, mul64, encrypted_chunk_count, without_tags}
use darkbio_crypto_go.Stream.Reader.{Outcome, value, error}

abbrev pub ReaderAt : Type 0
ReaderAt = ℕ → ℕ → Bytes × Option StreamError

-- cachedChunk
pub record CachedChunk : Type 0 where
  pub off : ℕ
  pub content : Bytes

pub record DecryptReaderAt : Type 0 where
  pub aead : Aead
  pub src : ReaderAt
  pub size : ℕ
  pub chunks : ℕ
  pub cache : Option CachedChunk

-- NewDecryptReaderAt from the final chunk on; `none` is the panic of a buffer of negative size.
unfoldable pub open_final : Aead → ReaderAt → ℕ → ℕ → Option (Outcome DecryptReaderAt)
unfolding without_tags chunk_size
open_final aead src size chunks =
    let index = sub64 chunks 1 in
    let off = mul64 index enc_chunk_size in
    let final_size = sub64 size off in
    let (final_chunk, err) = src final_size off in
    if leb (2 ^ 63) final_size then none else elim err [
      | some e ↦ some (error e)
      | none ↦
          elim (aead.open_ (nonce_bytes (set_last_chunk_flag (nonce_for_chunk index)))
            final_chunk) [
              | none ↦ some (error corrupted)
              | some plaintext ↦ some (
                  value (record {
                    aead = aead;
                    src = src;
                    size = without_tags size chunks;
                    chunks = chunks;
                    cache = some (record { off = off; content = plaintext });
                  }))
            ]
    ]

unfoldable pub new_decrypt_reader_at :
    (Bytes → Option Aead) → Bytes → ReaderAt → ℕ → Option (Outcome DecryptReaderAt)
unfolding open_final encrypted_chunk_count
new_decrypt_reader_at new_aead key src size = elim (new_aead key) [
  | none ↦ some (error invalid_key)
  | some aead ↦ elim (encrypted_chunk_count size) [
    | none ↦ some (error invalid_size)
    | some chunks ↦ open_final aead src size chunks
  ]
]

-- io.EOF is no error if the buffer is full.
unfoldable pub read_error : Option StreamError → Bool → Option StreamError
read_error none all = none
read_error (some eof) all = if all then none else some unexpected_eof
read_error (some e) all = some e

unfoldable pub chunk_nonce : DecryptReaderAt → ℕ → Nonce
chunk_nonce r index =
    if index == sub64 r.chunks 1
    then set_last_chunk_flag (nonce_for_chunk index)
    else nonce_for_chunk index

-- A chunk that is not in the cache: its plaintext, also as the update of the cache.
unfoldable pub fetch_chunk : DecryptReaderAt → ℕ → ℕ → ℕ → Outcome (Bytes × Option CachedChunk)
unfolding read_error chunk_nonce
fetch_chunk r index off size =
    let (bytes, err) = r.src size off in
    elim (read_error err (length bytes == size)) [
      | some e ↦ error e
      | none ↦ elim (r.aead.open_ (nonce_bytes (chunk_nonce r index)) bytes) [
        | none ↦ error corrupted
        | some plaintext ↦ value (plaintext, some (record { off = off; content = plaintext }))
      ]
    ]

unfoldable pub from_cache : Option CachedChunk → ℕ → Option Bytes
from_cache none off = none
from_cache (some c) off = if c.off == off then some c.content else none

-- The plaintext of the chunk at `off`, and `cacheUpdate`.
unfoldable pub chunk_at : DecryptReaderAt → ℕ → Outcome (Bytes × Option CachedChunk)
unfolding fetch_chunk from_cache chunk_size
chunk_at r off =
    let index = off / chunk_size in
    let chunk_off = mul64 index enc_chunk_size in
    let enc_size = add64 r.size (mul64 r.chunks overhead) in
    let size = min (sub64 enc_size chunk_off) enc_chunk_size in
    elim (from_cache r.cache chunk_off) [
      | some plaintext ↦ value (plaintext, none)
      | none ↦ fetch_chunk r index chunk_off size
    ]

-- What the loop of ReadAt ends with: the bytes copied, and the offset and the update of the cache
-- behind them, or an error, or the panic of a slice.
pub data Copied : Type 0 where
  copied : Bytes → ℕ → Option CachedChunk → Copied
  failed : Bytes → StreamError → Copied
  panicked : Copied

abbrev pub behind : Bytes → Copied → Copied
behind b (copied bs off update) = copied (b ++ bs) off update
behind b (failed bs e) = failed (b ++ bs) e
behind b panicked = panicked

-- The loop of ReadAt for `n` bytes; the first number bounds the rounds.
unfoldable pub copy_chunks : ℕ → DecryptReaderAt → ℕ → ℕ → Option CachedChunk → Copied
unfolding chunk_at chunk_size
copy_chunks zero r n off update = copied [] off update
copy_chunks (suc rounds) r n off update =
    if not (ltb 0 n && ltb off r.size) then copied [] off update else elim (chunk_at r off) [
      | error e ↦ failed [] e
      | value (plaintext, update') ↦
          let start = sub64 off (mul64 (off / chunk_size) chunk_size) in
          let size = min (length plaintext - start) n in
          if ltb (length plaintext) start
          then panicked
          else behind (take size (drop start plaintext))
              (copy_chunks rounds r (n - size) (add64 off size) update')
    ]

-- The errors of ReadAt.
pub data ReadAtError : Type 0 where
  out_of_range : ReadAtError
  of_stream : StreamError → ReadAtError

-- The bytes in the buffer, the error, and the reader with its cache; or a panic.
pub data ReadAt : Type 0 where
  read_bytes : Bytes → Option ReadAtError → DecryptReaderAt → ReadAt
  panicked_at : ReadAt

abbrev pub store : Option CachedChunk → DecryptReaderAt → DecryptReaderAt
store none r = r
store (some c) r = record r { cache = some c }

unfoldable pub finish_read : DecryptReaderAt → Copied → ReadAt
finish_read r (copied bs off update) =
    read_bytes bs (if off == r.size then some (of_stream eof) else none) (store update r)
finish_read r (failed bs e) = read_bytes bs (some (of_stream e)) r
finish_read r panicked = panicked_at

-- ReadAt with a buffer of `n` bytes.
unfoldable pub read_at : DecryptReaderAt → ℕ → ℤ → ReadAt
unfolding copy_chunks finish_read
read_at r n (negsuc k) = read_bytes [] (some out_of_range) r
read_at r n (pos off) =
    if ltb r.size off
    then read_bytes [] (some out_of_range) r
    else if n == 0
    then read_bytes [] none r
    else finish_read r (copy_chunks n r n off none)
