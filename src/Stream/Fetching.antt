-- ===== src/Stream/Fetching.antt =====
-- The chunks that DecryptReaderAt (stream/stream.go) finds in a sealed message.
use darkbio_crypto_go.Base.{
  ℕ, ◌+◌, ◌*◌, ◌-◌, ◌/◌, ◌^◌, ◌≤◌, ◌<◌, ◌≡◌, refl, sym, ap, ap₂, ◌∙◌, ◌⊎◌, inl, inr, Option, some,
  none, true, min, length, length-drop, length-take_le, take, drop, ◌==◌, leb, Option-cases, arith,
}
use darkbio_crypto_go.Stream.Types.{
  Bytes, StreamError, eof, Aead, AeadLaws, chunk_size, enc_chunk_size, overhead,
}
use darkbio_crypto_go.Stream.Nonce.{Nonce, nonce_bytes, nonce_for_chunk-nonce_at}
use darkbio_crypto_go.Stream.Size.{add64, sub64, mul64, chunk_count, encrypted_size}
use darkbio_crypto_go.Stream.Sealed.{Sealed}
use darkbio_crypto_go.Stream.Draining.{Sealed-Rest}
use darkbio_crypto_go.Stream.Length.{length-Sealed}
use darkbio_crypto_go.Stream.Reader.{value}
use darkbio_crypto_go.Stream.ReaderAt.{
  ReaderAt, CachedChunk, DecryptReaderAt, read_error, chunk_nonce, fetch_chunk, from_cache,
  chunk_at,
}
use darkbio_crypto_go.Stream.Places.{take-min, nonce_with, chunk_size-eq, chunk_place}

-- An io.ReaderAt over the bytes `c`: in their range it fills the buffer, and reports io.EOF at most.
abbrev pub Delivers : ReaderAt → Bytes → Type 0
Delivers src c =
    (n off : ℕ)
    → off + n ≤ length c
    → ((src n off).0 ≡ take n (drop off c)) × (((src n off).1 ≡ none) ⊎ ((src n off).1 ≡ some eof))

-- The plaintext of chunk `i`.
abbrev pub piece : Bytes → ℕ → Bytes
piece plain i = take chunk_size (drop (i * 65536) plain)

-- A cache holds the plaintext of the chunk that stands at its offset.
abbrev pub Coherent : Bytes → Option CachedChunk → Type 0
Coherent plain none = Unit
Coherent plain (some c) = (i : ℕ) × (c.off ≡ i * 65552) × (c.content ≡ piece plain i)

module _ (a : Aead) where
  -- A reader of the sealed message `cipher`.
  pub record Valid (plain cipher : Bytes) (r : DecryptReaderAt) : Type 0 where
    pub same_aead : r.aead ≡ a
    pub message : Sealed a plain cipher
    pub small : length plain < 2 ^ 62
    pub delivers : Delivers r.src cipher
    pub size_of : r.size ≡ length plain
    pub chunks_of : r.chunks ≡ chunk_count (length plain)
    pub coherent : Coherent plain r.cache

stored :
    (c : CachedChunk) (off : ℕ) (t : Bytes)
    → from_cache (some c) off ≡ some t
    → (c.off ≡ off) × (t ≡ c.content)
unfolding from_cache
stored c off t e = ground arith

from_cache-Coherent :
    (plain t : Bytes) (o : Option CachedChunk) (i : ℕ)
    → Coherent plain o
    → from_cache o (i * 65552) ≡ some t
    → t ≡ piece plain i
unfolding from_cache
from_cache-Coherent plain t none i h e = absurd (cc)
from_cache-Coherent plain t (some c) i (j, at, content) e =
    let (here, same) = stored c (i * 65552) t e in
    let place : j ≡ i = omega (arith, at, here) in same ∙ content ∙ ap (piece plain) place

-- Chunk `i` starts within the message.
start-le : (p i : ℕ) → (i ≡ 0) ⊎ (i * 65536 < p) → i * 65552 ≤ encrypted_size p
start-le p i h = ground arith

last_index :
    (p i : ℕ)
    → p < 2 ^ 62
    → (i ≡ 0) ⊎ (i * 65536 < p)
    → i == sub64 (chunk_count p) 1 ≡ leb (p - i * 65536) 65536
last_index p i small h = ground arith

read_error-full : (e : Option StreamError) → (e ≡ none) ⊎ (e ≡ some eof) → read_error e true ≡ none
unfolding read_error
read_error-full e (inl h) = rw h
read_error-full e (inr h) = rw h

chunk_nonce-nonce_with :
    (r : DecryptReaderAt) (p i : ℕ)
    → r.chunks ≡ chunk_count p
    → p < 2 ^ 62
    → (i ≡ 0) ⊎ (i * 65536 < p)
    → chunk_nonce r i ≡ nonce_with (0 + i) (p - i * 65536)
unfolding chunk_nonce
chunk_nonce-nonce_with r p i c small h =
    let place : 0 + i ≡ i = omega arith in
    rw (c, last_index p i small h, nonce_for_chunk-nonce_at i (omega (arith, small, h)), place)

module _ (a : Aead) (laws : AeadLaws a) where
  fetch_chunk-Valid :
      (plain cipher : Bytes) (r : DecryptReaderAt) (i size : ℕ)
      → Valid a plain cipher r
      → (i ≡ 0) ⊎ (i * 65536 < length plain)
      → size ≡ min (length cipher - i * 65552) enc_chunk_size
      → fetch_chunk r i (i * 65552) size
        ≡ value (piece plain i, some (record { off = i * 65552; content = piece plain i }))
  unfolding fetch_chunk chunk_nonce
  fetch_chunk-Valid plain cipher r i size v h e =
      let whole = length-Sealed a laws plain cipher v.message in
      let within : i * 65552 ≤ length cipher = omega (arith, whole, start-le (length plain) i h) in
      let left = length-drop (i * 65552) cipher in
      let range : i * 65552 + size ≤ length cipher = ground (arith, e, within) in
      let (bytes, ending) = v.delivers size (i * 65552) range in
      let got = (r.src size (i * 65552)).0 in
      let sent : got ≡ a.seal (nonce_bytes (chunk_nonce r i)) (piece plain i) =
        bytes
        ∙ ap (λ (n : ℕ). take n (drop (i * 65552) cipher))
            (e ∙ ap (λ (n : ℕ). min n enc_chunk_size) (sym left))
        ∙ take-min enc_chunk_size (drop (i * 65552) cipher)
        ∙ chunk_place a laws 0 i plain cipher (Sealed-Rest a plain cipher v.message) h
        ∙ ap (λ (n : Nonce). a.seal (nonce_bytes n) (piece plain i))
            (sym (chunk_nonce-nonce_with r (length plain) i v.chunks_of v.small h)) in
      let count : length got ≡ size =
        ap (λ (b : Bytes). length b) bytes
        ∙ length-take_le size (drop (i * 65552) cipher) (omega (arith, left, range)) in
      let filled : length got == size ≡ true = ground arith in
      let opens : r.aead.open_ (nonce_bytes (chunk_nonce r i)) got ≡ some (piece plain i) =
        ap₂ (λ (x : Aead) (b : Bytes). x.open_ (nonce_bytes (chunk_nonce r i)) b) v.same_aead sent
        ∙ laws.open_seal (nonce_bytes (chunk_nonce r i)) (piece plain i) in
      rw (filled, fetch_chunk, read_error-full _ ending, opens)

  encrypted-size_of :
      (p i : ℕ)
      → p < 2 ^ 62
      → (i ≡ 0) ⊎ (i * 65536 < p)
      → sub64 (add64 p (mul64 (chunk_count p) overhead)) (i * 65552) ≡ encrypted_size p - i * 65552
  encrypted-size_of p i small h = ground (arith, start-le p i h)

  chunk_in_range : (off p : ℕ) → off < p → (off / 65536 ≡ 0) ⊎ (off / 65536 * 65536 < p)
  chunk_in_range off p h = inr (omega arith)

  pub chunk_at-Valid :
      (plain cipher : Bytes) (r : DecryptReaderAt) (off : ℕ)
      → Valid a plain cipher r
      → off < length plain
      → (u : Option CachedChunk) × (chunk_at r off ≡ value (piece plain (off / 65536), u))
        × Coherent plain u
  unfolding chunk_at
  chunk_at-Valid plain cipher r off v lt =
      let i = off / 65536 in
      let index : off / chunk_size ≡ i = ap (λ (n : ℕ). off / n) chunk_size-eq in
      let in_range : (i ≡ 0) ⊎ (i * 65536 < length plain) = chunk_in_range off (length plain) lt in
      let place : mul64 i enc_chunk_size ≡ i * 65552 =
        ap (λ (n : ℕ). mul64 i (n + overhead)) chunk_size-eq ∙ omega (arith, lt, v.small) in
      let whole = length-Sealed a laws plain cipher v.message in
      let left : sub64 (add64 r.size (mul64 r.chunks overhead)) (i * 65552)
          ≡ length cipher - i * 65552 =
        ap₂ (λ (s n : ℕ). sub64 (add64 s (mul64 n overhead)) (i * 65552)) v.size_of v.chunks_of
        ∙ encrypted-size_of (length plain) i v.small in_range
        ∙ ap (λ (n : ℕ). n - i * 65552) (sym whole) in
      elim (Option-cases (from_cache r.cache (i * 65552))) [
        | inl missing ↦
            let fetched = fetch_chunk-Valid plain cipher r i _ v in_range refl in
            (
              some (record { off = i * 65552; content = piece plain i }),
              rw (chunk_at, index, place, missing, index, place, left) fetched,
              (i, refl, refl),
            )
        | inr (t, hit) ↦
            let same = from_cache-Coherent plain t r.cache i v.coherent hit in
            (none, rw (chunk_at, index, place, hit, same), tt)
      ]
