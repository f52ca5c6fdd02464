-- ===== src/Stream/Types.antt =====
-- The constants and errors of stream/stream.go, and its parameters: the cipher, and the writer and
-- the reader that it is given.
use darkbio_crypto_go.Base.{ℕ, ◌+◌, ◌<◌, ◌≡◌, ap, Option, some, none, List, length, arith}

abbrev pub Bytes : Type 0
Bytes = List ℕ

-- ChunkSize
unfoldable pub chunk_size : ℕ
chunk_size = 65536

-- chacha20poly1305.Overhead
abbrev pub overhead : ℕ
overhead = 16

-- encChunkSize
abbrev pub enc_chunk_size : ℕ
enc_chunk_size = chunk_size + overhead

pub chunk_size_pos : 0 < chunk_size
unfolding chunk_size
chunk_size_pos = omega arith

-- The errors that the code tells apart. `source n` is an error of the underlying reader or writer.
pub data StreamError : Type 0 where
  eof unexpected_eof : StreamError
  invalid_key invalid_size : StreamError
  trailing_data empty_last_chunk corrupted closed : StreamError
  source : ℕ → StreamError

-- A call returns its value with the state it leaves, or panics.
pub data Run (S A : Type 0) : Type 0 where
  done : A → S → Run S A
  panic : Run S A

-- cipher.AEAD without additional data: Seal and Open of a nonce.
pub record Aead : Type 0 where
  pub seal : Bytes → Bytes → Bytes
  pub open_ : Bytes → Bytes → Option Bytes

-- What the code relies on: Open undoes Seal, Seal adds the tag, and Open accepts nothing but what
-- Seal returns for that nonce.
pub record AeadLaws (a : Aead) : Type 0 where
  pub open_seal : (n p : Bytes) → a.open_ n (a.seal n p) ≡ some p
  pub length_seal : (n p : Bytes) → length (a.seal n p) ≡ length p + overhead
  pub seal_open : (n c p : Bytes) → a.open_ n c ≡ some p → c ≡ a.seal n p

-- `if err != nil { f(err) } else { r }` for an error kept by an earlier call.
abbrev pub unless_failed : {A : Type 0} → Option StreamError → (StreamError → A) → A → A
unless_failed none f r = r
unless_failed (some e) f r = f e

pub unless_failed-none :
    {A : Type 0} (e : Option StreamError) (f : StreamError → A) (r : A)
    → e ≡ none
    → unless_failed e f r ≡ r
unless_failed-none e f r h = ap (λ (o : Option StreamError). unless_failed o f r) h
