-- ===== src/Stream/Starting.antt =====
-- NewDecryptReaderAt (stream/stream.go) over a sealed message.
use darkbio_crypto_go.Base.{
  ℕ, ◌+◌, ◌*◌, ◌-◌, ◌^◌, ◌≤◌, ◌<◌, ◌≡◌, refl, sym, ap, ◌∙◌, ◌⊎◌, Option, some, none, true, false,
  leb, le→leb, length, length-drop, take, drop, whole_taken, arith,
}
use darkbio_crypto_go.Stream.Types.{Bytes, Aead, AeadLaws, enc_chunk_size, overhead}
use darkbio_crypto_go.Stream.Nonce.{
  Nonce, nonce_bytes, set_last_chunk_flag, nonce_for_chunk, nonce_for_chunk-nonce_at,
}
use darkbio_crypto_go.Stream.Size.{
  sub64, mul64, chunk_count, encrypted_size, encrypted_chunk_count, without_tags,
  encrypted_chunk_count-encrypted_size,
}
use darkbio_crypto_go.Stream.Sealed.{Sealed}
use darkbio_crypto_go.Stream.Draining.{Sealed-Rest}
use darkbio_crypto_go.Stream.Length.{length-Sealed}
use darkbio_crypto_go.Stream.Reader.{value}
use darkbio_crypto_go.Stream.ReaderAt.{ReaderAt, DecryptReaderAt, open_final, new_decrypt_reader_at}
use darkbio_crypto_go.Stream.Places.{nonce_with, chunk_size-eq, chunk_place}
use darkbio_crypto_go.Stream.Fetching.{Delivers, piece, Valid}

-- The last chunk of `p` bytes: its index and its size on the wire.
last_chunk :
    (p i : ℕ)
    → i ≡ chunk_count p - 1
    → p < 2 ^ 62
    → (sub64 (chunk_count p) 1 ≡ i)
      × ((i ≡ 0) ⊎ (i * 65536 < p))
      × (p - i * 65536 ≤ 65536)
      × (mul64 i 65552 ≡ i * 65552)
      × (sub64 (encrypted_size p) (i * 65552) ≡ encrypted_size p - i * 65552)
      × (encrypted_size p - i * 65552 ≤ 65552)
      × (i * 65552 ≤ encrypted_size p)
last_chunk p i e small = (
  ground arith,
  ground arith,
  ground arith,
  ground arith,
  ground arith,
  ground arith,
  ground arith,
)

open_final-opens :
    (a : Aead) (src : ReaderAt) (size chunks i off n p : ℕ) (plaintext : Bytes)
    → sub64 chunks 1 ≡ i
    → mul64 i enc_chunk_size ≡ off
    → sub64 size off ≡ n
    → leb (2 ^ 63) n ≡ false
    → (src n off).1 ≡ none
    → a.open_ (nonce_bytes (set_last_chunk_flag (nonce_for_chunk i))) (src n off).0 ≡ some plaintext
    → without_tags size chunks ≡ p
    → open_final a src size chunks
      ≡ some (
          value (record {
            aead = a;
            src = src;
            size = p;
            chunks = chunks;
            cache = some (record { off = off; content = plaintext });
          }))
unfolding open_final
open_final-opens a src size chunks i off n p plaintext index place left fits clean opens rest =
    rw (index, place, left, fits, clean, index, place, left, opens, index, place, rest)

not_leb : (n : ℕ) → n ≤ 65552 → leb (2 ^ 63) n ≡ false
not_leb n h = ground arith

module _ (a : Aead) (laws : AeadLaws a) where
  final_chunk :
      (plain cipher : Bytes) (i : ℕ)
      → Sealed a plain cipher
      → (i ≡ 0) ⊎ (i * 65536 < length plain)
      → length plain - i * 65536 ≤ 65536
      → length cipher - i * 65552 ≤ 65552
      → i < 2 ^ 64
      → take (length cipher - i * 65552) (drop (i * 65552) cipher)
        ≡ a.seal (nonce_bytes (set_last_chunk_flag (nonce_for_chunk i))) (piece plain i)
  final_chunk plain cipher i s within last short small =
      let rest = drop (i * 65552) cipher in
      let left = length-drop (i * 65552) cipher in
      let flagged : nonce_with (0 + i) (length plain - i * 65536)
          ≡ set_last_chunk_flag (nonce_for_chunk i) =
        let index : 0 + i ≡ i = omega arith in
        let end : leb (length plain - i * 65536) 65536 ≡ true = le→leb _ _ last in
        rw (end, index, nonce_for_chunk-nonce_at i small) in
      (whole_taken (length cipher - i * 65552) rest (omega (arith, left))).0
      ∙ sym (whole_taken enc_chunk_size rest (omega (arith, left, short, chunk_size-eq))).0
      ∙ chunk_place a laws 0 i plain cipher (Sealed-Rest a plain cipher s) within
      ∙ ap (λ (n : Nonce). a.seal (nonce_bytes n) (piece plain i)) flagged

  -- If the key is one of the cipher, the source delivers a sealed message of less than 2 ^ 62 bytes
  -- of plaintext, and reads within it give no error, not even io.EOF, then NewDecryptReaderAt with
  -- the size of the message returns a valid reader of it.
  pub new_decrypt_reader_at-Valid :
      (new_aead : Bytes → Option Aead) (key plain cipher : Bytes) (src : ReaderAt)
      → new_aead key ≡ some a
      → Sealed a plain cipher
      → length plain < 2 ^ 62
      → Delivers src cipher
      → ((n off : ℕ) → off + n ≤ length cipher → (src n off).1 ≡ none)
      → (r : DecryptReaderAt) × (new_decrypt_reader_at new_aead key src (length cipher)
          ≡ some (value r))
        × Valid a plain cipher r
  unfolding new_decrypt_reader_at
  new_decrypt_reader_at-Valid new_aead key plain cipher src keyed sealed_ small delivers clean =
      let p = length plain in
      let i = chunk_count p - 1 in
      let whole : length cipher ≡ encrypted_size p = length-Sealed a laws plain cipher sealed_ in
      let (index, within, last, off, left, short, le) = last_chunk p i refl small in
      let (counted, rest) = encrypted_chunk_count-encrypted_size p small in
      let n = length cipher - i * 65552 in
      let short' : n ≤ 65552 = omega (arith, whole, short) in
      let place : mul64 i enc_chunk_size ≡ i * 65552 =
        ap (λ (m : ℕ). mul64 i (m + overhead)) chunk_size-eq ∙ off in
      let left' : sub64 (length cipher) (i * 65552) ≡ n =
        ap (λ (m : ℕ). sub64 m (i * 65552)) whole
        ∙ left
        ∙ ap (λ (m : ℕ). m - i * 65552) (sym whole) in
      let range : i * 65552 + n ≤ length cipher = omega (arith, whole, le) in
      let (bytes, _) = delivers n (i * 65552) range in
      let sent =
        bytes
        ∙ final_chunk plain cipher i sealed_ within last short' (omega (arith, within, small)) in
      let nonce = nonce_bytes (set_last_chunk_flag (nonce_for_chunk i)) in
      let opens : a.open_ nonce (src n (i * 65552)).0 ≡ some (piece plain i) =
        ap (a.open_ nonce) sent ∙ laws.open_seal nonce (piece plain i) in
      let opened =
        open_final-opens a src (length cipher) (chunk_count p) i (i * 65552) n p (piece plain i)
          index place left' (not_leb n short') (clean n (i * 65552) range) opens
          (ap (λ (m : ℕ). without_tags m (chunk_count p)) whole ∙ rest) in
      let counted' : encrypted_chunk_count (length cipher) ≡ some (chunk_count p) =
        rw whole counted in
      let r : DecryptReaderAt = record {
        aead = a;
        src = src;
        size = p;
        chunks = chunk_count p;
        cache = some (record { off = i * 65552; content = piece plain i });
      } in
      (
        r,
        rw (keyed, new_decrypt_reader_at, counted') opened,
        record {
          same_aead = refl;
          message = sealed_;
          small = small;
          delivers = delivers;
          size_of = refl;
          chunks_of = refl;
          coherent = (i, refl, refl);
        },
      )
