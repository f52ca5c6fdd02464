-- ===== src/Stream/Tests.antt =====
-- Concrete runs of package stream, and its theorems at concrete inputs.
use darkbio_crypto_go.Base.{
  ℕ, ◌-◌, ◌^◌, ◌≡◌, ◌≢◌, refl, ap₂, Option, some, none, true, Bool-cases, inl, inr, [], ◌∷◌, ◌++◌,
  length-append, length-take_le, take, ◌==◌, if◌then◌else◌, arith,
}
use darkbio_crypto_go.Stream.Types.{Bytes, eof, done, panic, Aead, AeadLaws, chunk_size}
use darkbio_crypto_go.Stream.Nonce.{
  zeros, new_nonce, nonce_is_zero, inc_nonce, nonce_for_chunk, inc_nonce-nonce_for_chunk,
}
use darkbio_crypto_go.Stream.Size.{plaintext_size}
use darkbio_crypto_go.Stream.Writer.{EncryptWriter}
use darkbio_crypto_go.Stream.Writing.{write_all, write_all-Sealed}
use darkbio_crypto_go.Stream.Reader.{
  Source, DecryptReader, value, error, read, read_chunk, after_read_chunk, open_chunk, read_full,
  open_last, accept_chunk, check_end,
}
use darkbio_crypto_go.Stream.Reading.{Session, opened, delivered, read-Sealed}
use darkbio_crypto_go.Stream.Sealed.{Sealed}
use darkbio_crypto_go.Base.{drop}
use darkbio_crypto_go.Base.Int.{pos}
use darkbio_crypto_go.Stream.ReaderAt.{
  ReaderAt, DecryptReaderAt, of_stream, read_bytes, read_at, new_decrypt_reader_at,
}
use darkbio_crypto_go.Stream.Fetching.{Valid}
use darkbio_crypto_go.Stream.RandomAccess.{read_at-Valid}
use darkbio_crypto_go.Stream.Starting.{new_decrypt_reader_at-Valid}
use darkbio_crypto_go.Base.{false, suc, length}
use darkbio_crypto_go.Cbor.BigEndian.{be_bytes}
use darkbio_crypto_go.Stream.Nonce.{nonce_bytes, nonce_at, set_last_chunk_flag}
use darkbio_crypto_go.Stream.Draining.{read_all, read_all-Sealed}
use darkbio_crypto_go.Stream.RoundTrip.{
  keep, writer_of, reader_of, read_all-write_all, read_encrypted-write_all,
}
use darkbio_crypto_go.Stream.EncryptReader.{
  EncryptReader, read_encrypted, after_feed, feed_buffer, seal_last,
}
use darkbio_crypto_go.Stream.Encrypting.{Encryption, started, handed, read_encrypted-Sealed}

-- A cipher that only tags: sixteen bytes of the nonce in front of the plaintext.
abbrev tag_of : Bytes → Bytes
tag_of n = take 16 (n ++ zeros 16)

abbrev strip : Bytes → Bytes → Option Bytes
strip [] c = some c
strip (t ∷ ts) [] = none
strip (t ∷ ts) (b ∷ c) = let rest = strip ts c in if t == b then rest else none

abbrev tagger : Aead
tagger = record { seal = λ n p. tag_of n ++ p; open_ = λ n c. strip (tag_of n) c }

strip-append : (t p : Bytes) → strip t (t ++ p) ≡ some p
strip-append [] p = refl
strip-append (x ∷ t) p = let same : (x == x) ≡ true = ground arith in rw same (strip-append t p)

strip_inv : (t c p : Bytes) → strip t c ≡ some p → c ≡ t ++ p
strip_inv [] c p h = cc
strip_inv (x ∷ t) [] p h = cc
strip_inv (x ∷ t) (b ∷ c) p h = elim (Bool-cases (x == b)) [
  | inl same ↦ ap₂ (λ (y : ℕ) (ys : Bytes). y ∷ ys) (ground arith) (strip_inv t c p (rw same at h))
  | inr other ↦ let clash : none ≡ some p = rw other at h in absurd (cc)
]

tagger_laws : AeadLaws tagger
tagger_laws = record {
  open_seal = λ n p. strip-append (tag_of n) p;
  length_seal = λ n p. omega (
    arith,
    length-append (tag_of n) p,
    length-take_le 16 (n ++ zeros 16) (omega (arith, length-append n (zeros 16))),
  );
  seal_open = λ n c p h. strip_inv (tag_of n) c p h;
}

strip-other : (t u v p : Bytes) (x y : ℕ) → x ≢ y → strip (t ++ x ∷ u) (t ++ y ∷ v ++ p) ≡ none
strip-other [] u v p x y differ = let no : (x == y) ≡ false = ground (arith, differ) in rw no refl
strip-other (z ∷ t) u v p x y differ =
    let same : (z == z) ≡ true = ground arith in rw same (strip-other t u v p x y differ)

-- The flag is a part of the tag.
tagger_flag :
    (k : ℕ) (p : Bytes)
    → tagger.open_
        (nonce_bytes (nonce_at k))
        (tagger.seal (nonce_bytes (set_last_chunk_flag (nonce_at k))) p)
      ≡ none
unfolding nonce_at be_bytes
tagger_flag k p = strip-other (be_bytes 11 k) (zeros 4) (zeros 4) p 0 1 (ground arith)

write_all-Sealed_example :
    (w' : EncryptWriter Bytes) × (write_all tagger keep
        (λ d. d)
        (λ d b. (refl, refl))
        ((1 ∷ 2 ∷ []) ∷ [] ∷ (3 ∷ []) ∷ [])
        (record { aead = tagger; dst = []; buf = []; nonce = new_nonce; error = none })
      ≡ done none w')
    × Sealed tagger (1 ∷ 2 ∷ 3 ∷ []) w'.dst
write_all-Sealed_example =
    write_all-Sealed tagger keep (λ d. d) (λ d b. (refl, refl)) ((1 ∷ 2 ∷ []) ∷ [] ∷ (3 ∷ []) ∷ [])
      [] refl (omega arith)

read_all-write_all_example :
    (w : EncryptWriter Bytes) × (write_all tagger keep
        (λ d. d)
        (λ d b. (refl, refl))
        ((1 ∷ 2 ∷ []) ∷ (3 ∷ []) ∷ [])
        (writer_of tagger)
      ≡ done none w)
    × (read_all 70000 (suc (length w.dst)) (reader_of tagger w.dst) ≡ some (1 ∷ 2 ∷ 3 ∷ [], eof))
    × (plaintext_size (length w.dst) ≡ some 3)
unfolding chunk_size
read_all-write_all_example =
    read_all-write_all tagger tagger_laws 70000 ((1 ∷ 2 ∷ []) ∷ (3 ∷ []) ∷ []) tagger_flag
      (omega arith) (omega arith)

inc_nonce-nonce_for_chunk_example : inc_nonce (nonce_for_chunk 255) ≡ some (nonce_for_chunk 256)
inc_nonce-nonce_for_chunk_example = inc_nonce-nonce_for_chunk 255 (omega arith)

-- The size 65560 would be a full chunk and an empty one with only half a tag.
plaintext_size_gap : plaintext_size 65560 ≡ none
unfolding plaintext_size
plaintext_size_gap = refl

-- -5 is not refused.
plaintext_size_negative : plaintext_size (2 ^ 64 - 5) ≡ some (2 ^ 64 - 5)
unfolding plaintext_size
plaintext_size_negative = refl

-- The sealed message of three bytes, and a client that reads all of it.
abbrev message : Bytes
message = zeros 11 ++ 1 ∷ 0 ∷ 0 ∷ 0 ∷ 0 ∷ 1 ∷ 2 ∷ 3 ∷ []

abbrev source_of : Bytes → Source
source_of bytes = record { rest = bytes; ending = eof }

abbrev fresh : DecryptReader
fresh = record {
  aead = tagger;
  src = source_of message;
  unread = [];
  nonce = new_nonce;
  error = none;
}

abbrev spent : DecryptReader
spent = record {
  aead = tagger;
  src = source_of [];
  unread = [];
  nonce = record { counter = zeros 10 ++ 1 ∷ []; flag = 1 };
  error = some eof;
}

read_message : read 10 fresh ≡ done (value (1 ∷ 2 ∷ 3 ∷ [])) spent
unfolding read after_read_chunk read_chunk open_chunk read_full chunk_size nonce_is_zero open_last
    accept_chunk inc_nonce check_end
read_message = refl

read_end : read 10 spent ≡ done (error eof) spent
unfolding read
read_end = refl

session : Session tagger tagger_laws (source_of message) (1 ∷ 2 ∷ 3 ∷ []) spent
session = delivered 10 opened read_message

message-Sealed : Sealed tagger (1 ∷ 2 ∷ 3 ∷ []) message
message-Sealed =
    (read-Sealed tagger tagger_laws (source_of message) (1 ∷ 2 ∷ 3 ∷ []) spent 10 (omega arith)
        session).1
      spent read_end

read_all-Sealed_example :
    read_all 70000 (suc (length message)) (reader_of tagger message) ≡ some (1 ∷ 2 ∷ 3 ∷ [], eof)
unfolding chunk_size
read_all-Sealed_example =
    read_all-Sealed tagger tagger_laws tagger_flag 70000 (omega arith) (1 ∷ 2 ∷ 3 ∷ []) message
      message-Sealed (omega arith)

-- The same three bytes through an EncryptReader.
abbrev three : Source
three = source_of (1 ∷ 2 ∷ 3 ∷ [])

abbrev unencrypted : EncryptReader
unencrypted = record {
  aead = tagger;
  src = three;
  ready = 0;
  buf = [];
  nonce = new_nonce;
  failure = none;
}

abbrev encrypted : EncryptReader
encrypted = record {
  aead = tagger;
  src = source_of [];
  ready = 0;
  buf = [];
  nonce = record { counter = zeros 10 ++ 1 ∷ []; flag = 1 };
  failure = some eof;
}

read_encrypted_message : read_encrypted 40 unencrypted ≡ done (value message) encrypted
unfolding read_encrypted after_feed feed_buffer seal_last inc_nonce chunk_size
read_encrypted_message = refl

encryption : Encryption tagger tagger_laws three message encrypted
encryption = handed 40 started read_encrypted_message

read_encrypted-Sealed_example :
    (read_encrypted 40 encrypted ≢ panic)
    × ((r' : EncryptReader)
        → read_encrypted 40 encrypted ≡ done (error eof) r'
        → Sealed tagger (1 ∷ 2 ∷ 3 ∷ []) message)
read_encrypted-Sealed_example =
    read_encrypted-Sealed tagger tagger_laws three message encrypted 40 (omega arith) encryption

encrypted_end : read_encrypted 40 encrypted ≡ done (error eof) encrypted
unfolding read_encrypted
encrypted_end = refl

read_encrypted-write_all_example :
    (w : EncryptWriter Bytes) × (write_all tagger keep
        (λ d. d)
        (λ d b. (refl, refl))
        ((1 ∷ []) ∷ (2 ∷ 3 ∷ []) ∷ [])
        (writer_of tagger)
      ≡ done none w)
    × (message ≡ w.dst)
read_encrypted-write_all_example =
    read_encrypted-write_all tagger tagger_laws 40 ((1 ∷ []) ∷ (2 ∷ 3 ∷ []) ∷ []) message encrypted
      encrypted (omega arith) encryption encrypted_end

-- The same message with random access.
abbrev message_at : ReaderAt
message_at = λ n off. (take n (drop off message), none)

abbrev message_reader : DecryptReaderAt
message_reader = record { aead = tagger; src = message_at; size = 3; chunks = 1; cache = none }

new_decrypt_reader_at-Valid_example :
    (r : DecryptReaderAt) × (new_decrypt_reader_at
        (λ key. some tagger)
        []
        message_at
        (length message)
      ≡ some (value r))
    × Valid tagger (1 ∷ 2 ∷ 3 ∷ []) message r
new_decrypt_reader_at-Valid_example =
    new_decrypt_reader_at-Valid tagger tagger_laws (λ key. some tagger) [] (1 ∷ 2 ∷ 3 ∷ []) message
      message_at refl message-Sealed (omega arith) (λ n off h. (refl, inl refl)) (λ n off h. refl)

message_reader-Valid : Valid tagger (1 ∷ 2 ∷ 3 ∷ []) message message_reader
message_reader-Valid = record {
  same_aead = refl;
  message = message-Sealed;
  small = omega arith;
  delivers = λ n off h. (refl, inl refl);
  size_of = refl;
  chunks_of = refl;
  coherent = tt;
}

read_at-Valid_example :
    (r' : DecryptReaderAt) × (read_at message_reader 5 (pos 1)
      ≡ read_bytes (2 ∷ 3 ∷ []) (some (of_stream eof)) r')
    × Valid tagger (1 ∷ 2 ∷ 3 ∷ []) message r'
read_at-Valid_example =
    read_at-Valid tagger tagger_laws (1 ∷ 2 ∷ 3 ∷ []) message message_reader 5 1
      message_reader-Valid (omega arith)
