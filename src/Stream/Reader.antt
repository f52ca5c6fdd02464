-- ===== src/Stream/Reader.antt =====
-- DecryptReader of stream/stream.go. The underlying reader is the bytes that it still delivers and
-- what it then returns; io.ReadFull is written out over it.
use darkbio_crypto_go.Base.{
  ℕ, Option, some, none, Bool, true, false, ◌&&◌, not, [], ◌∷◌, length, take, drop, leb, ltb, ◌==◌,
  if◌then◌else◌,
}
use darkbio_crypto_go.Stream.Types.{
  Bytes, StreamError, eof, unexpected_eof, trailing_data, empty_last_chunk, corrupted, Run, done,
  panic, Aead, enc_chunk_size, overhead, unless_failed,
}
use darkbio_crypto_go.Stream.Nonce.{
  Nonce, nonce_bytes, new_nonce, set_last_chunk_flag, nonce_is_zero, inc_nonce,
}

-- `ending` is the error behind the last byte: io.EOF, or another one, after which the code does not
-- read again.
pub record Source : Type 0 where
  pub rest : Bytes
  pub ending : StreamError

-- What io.ReadFull of `n` bytes returns: all of them, io.EOF before the first byte,
-- io.ErrUnexpectedEOF behind some of them, or another error.
pub data Filled : Type 0 where
  full : Bytes → Filled
  at_end : Filled
  short : Bytes → Filled
  failed : StreamError → Filled

-- The end comes before the buffer is full. An ErrUnexpectedEOF of the reader itself is not told
-- apart from that of io.ReadFull.
abbrev pub filled_part : StreamError → Bytes → Filled
filled_part eof [] = at_end
filled_part eof (b ∷ bs) = short (b ∷ bs)
filled_part unexpected_eof part = short part
filled_part e part = failed e

unfoldable pub read_full : ℕ → Source → Filled × Source
read_full n src =
    if leb n (length src.rest)
    then (full (take n src.rest), record src { rest = drop n src.rest })
    else (filled_part src.ending src.rest, record src { rest = [] })

pub record DecryptReader : Type 0 where
  pub aead : Aead
  pub src : Source
  pub unread : Bytes
  pub nonce : Nonce
  pub error : Option StreamError

unfoldable pub new_decrypt_reader : (Bytes → Option Aead) → Bytes → Source → Option DecryptReader
new_decrypt_reader new_aead key src = elim (new_aead key) [
  | none ↦ none
  | some aead ↦
      some (record { aead = aead; src = src; unread = []; nonce = new_nonce; error = none })
]

-- A call's value or its error.
pub data Outcome (A : Type 0) : Type 0 where
  value : A → Outcome A
  error : StreamError → Outcome A

-- The chunk is open: the nonce goes on, and the plaintext is there to be read.
unfoldable pub accept_chunk :
    Bool → Nonce → Bytes → DecryptReader → Run DecryptReader (Outcome Bool)
accept_chunk last nonce out r = elim (inc_nonce nonce) [
  | none ↦ panic
  | some nonce' ↦ done (value last) (record r { nonce = nonce'; unread = out })
]

-- A chunk read as the last one.
unfoldable pub open_last : Bytes → DecryptReader → Run DecryptReader (Outcome Bool)
open_last in_ r =
    let nonce = set_last_chunk_flag r.nonce in
    elim (r.aead.open_ (nonce_bytes nonce) in_) [
      | none ↦ done (error corrupted) (record r { nonce = nonce })
      | some out ↦ accept_chunk true nonce out r
    ]

-- A full chunk: if it does not open, it may be a full-length final chunk.
unfoldable pub open_full : Bytes → DecryptReader → Run DecryptReader (Outcome Bool)
open_full in_ r = elim (r.aead.open_ (nonce_bytes r.nonce) in_) [
  | some out ↦ accept_chunk false r.nonce out r
  | none ↦ open_last in_ r
]

-- With the result of io.ReadFull.
unfoldable pub open_chunk : Filled → DecryptReader → Run DecryptReader (Outcome Bool)
open_chunk (full in_) r = open_full in_ r
open_chunk at_end r = done (error unexpected_eof) r
open_chunk (short in_) r =
    if not (nonce_is_zero r.nonce) && length in_ == overhead
    then done (error empty_last_chunk) r
    else open_last in_ r
open_chunk (failed e) r = done (error e) r

unfoldable pub read_chunk : DecryptReader → Run DecryptReader (Outcome Bool)
read_chunk r =
    let (filled, src) = read_full enc_chunk_size r.src in
    if not (length r.unread == 0) then panic else open_chunk filled (record r { src = src })

-- `copy(p, r.unread)` into a buffer of `n` bytes: what Read returns of the plaintext.
abbrev pub deliver : ℕ → DecryptReader → Bytes × DecryptReader
deliver n r = (take n r.unread, record r { unread = drop n r.unread })

-- The Read of one byte behind the last chunk.
unfoldable pub check_end : DecryptReader → DecryptReader
check_end r = elim r.src.rest [
  | [] ↦ record r { error = some r.src.ending }
  | b ∷ bs ↦ record r {
    src = record { rest = bs; ending = r.src.ending };
    error = some trailing_data;
  }
]

unfoldable pub after_read_chunk :
    ℕ → Run DecryptReader (Outcome Bool) → Run DecryptReader (Outcome Bytes)
after_read_chunk n panic = panic
after_read_chunk n (done (error e) r) = done (error e) (record r { error = some e })
after_read_chunk n (done (value last) r) =
    done (value (deliver n r).0) (if last then check_end (deliver n r).1 else (deliver n r).1)

-- Read into a buffer of `n` bytes.
unfoldable pub read : ℕ → DecryptReader → Run DecryptReader (Outcome Bytes)
read n r =
    if ltb 0 (length r.unread)
    then done (value (deliver n r).0) (deliver n r).1
    else unless_failed r.error (λ e. done (error e) r)
        (if n == 0 then done (value []) r else after_read_chunk n (read_chunk r))
