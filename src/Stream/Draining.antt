-- ===== src/Stream/Draining.antt =====
-- DecryptReader (stream/stream.go) accepts every sealed message.
use darkbio_crypto_go.Base.{whole_taken}
use darkbio_crypto_go.Base.{
  ℕ, zero, suc, ◌+◌, ◌^◌, ◌≤◌, ◌<◌, ◌≡◌, refl, sym, ap, ◌∙◌, subst, ◌⊎◌, inl, inr, Option, some,
  none, true, false, ◌&&◌, not, [], ◌∷◌, ◌++◌, append_assoc, append-nil, length, length-append,
  take, drop, take-append, drop-append, leb, ◌==◌, Bool-cases, arith,
}
use darkbio_crypto_go.Stream.Types.{
  Bytes, StreamError, eof, done, panic, Aead, AeadLaws, chunk_size, chunk_size_pos, enc_chunk_size,
  overhead,
}
use darkbio_crypto_go.Stream.Nonce.{
  nonce_bytes, new_nonce, nonce_at, new_nonce-nonce_at, set_last_chunk_flag, nonce_is_zero,
  inc_nonce-nonce_at, inc_nonce-last, nonce_is_zero-zero,
}
use darkbio_crypto_go.Stream.Reader.{
  short, filled_part, read_full, DecryptReader, value, error, accept_chunk, open_last, open_full,
  open_chunk, read_chunk, check_end, after_read_chunk, read,
}
use darkbio_crypto_go.Stream.Sealed.{Chunks, no_chunk, chunk, Sealed, sealed}

-- A message from its chunk `k` on.
pub data Rest (a : Aead) : ℕ → Bytes → Bytes → Type 0 where
  at_last :
      {k : ℕ} (c : Bytes)
      → length c ≤ chunk_size
      → (k ≡ 0) ⊎ (0 < length c)
      → Rest a k c (a.seal (nonce_bytes (set_last_chunk_flag (nonce_at k))) c)
  more :
      {k : ℕ} {plain cipher : Bytes} (c : Bytes)
      → length c ≡ chunk_size
      → Rest a (suc k) plain cipher
      → Rest a k (c ++ plain) (a.seal (nonce_bytes (nonce_at k)) c ++ cipher)

Chunks-Rest :
    (a : Aead) (k : ℕ) (plain cipher p c : Bytes)
    → Chunks a k plain cipher
    → Rest a k p c
    → Rest a 0 (plain ++ p) (cipher ++ c)
Chunks-Rest a k plain cipher p c no_chunk r = r
Chunks-Rest a k plain cipher p c (chunk {k = j} {plain = q} {cipher = s} d h fits) r =
    subst (λ (x : Bytes). Rest a 0 x (s ++ a.seal (nonce_bytes (nonce_at j)) d ++ c))
      (sym (append_assoc q d p))
      (subst (λ (x : Bytes). Rest a 0 (q ++ (d ++ p)) x) (sym (append_assoc s _ c))
        (Chunks-Rest a j q s (d ++ p) _ h (more d fits r)))

pub Sealed-Rest : (a : Aead) (plain cipher : Bytes) → Sealed a plain cipher → Rest a 0 plain cipher
Sealed-Rest a plain cipher (sealed {k = k} {plain = p} {cipher = s} c h fits first) =
    Chunks-Rest a k p s c _ h (at_last c fits first)

-- A client with a buffer of `n` bytes that reads up to an error: all bytes, and the error.
abbrev pub prepend : Bytes → Option (Bytes × StreamError) → Option (Bytes × StreamError)
prepend b none = none
prepend b (some (bs, e)) = some (b ++ bs, e)

unfoldable pub read_all : ℕ → ℕ → DecryptReader → Option (Bytes × StreamError)
read_all n zero r = none
read_all n (suc fuel) r = elim (read n r) [
  | panic ↦ none
  | done (error e) r' ↦ some ([], e)
  | done (value b) r' ↦ prepend b (read_all n fuel r')
]

filled_part-short : (s : Bytes) → 0 < length s → filled_part eof s ≡ short s
filled_part-short [] h = absurd (omega arith)
filled_part-short (b ∷ bs) h = refl

module _ (a : Aead) (laws : AeadLaws a)
    (flag_matters : (k : ℕ) (p : Bytes)
      → a.open_
          (nonce_bytes (nonce_at k))
          (a.seal (nonce_bytes (set_last_chunk_flag (nonce_at k))) p)
        ≡ none)
    (n : ℕ) (room : chunk_size ≤ n) where
  -- The reader in front of chunk `k`.
  abbrev at_chunk : ℕ → Bytes → DecryptReader
  at_chunk k cipher = record {
    aead = a;
    src = record { rest = cipher; ending = eof };
    unread = [];
    nonce = nonce_at k;
    error = none;
  }

  abbrev at_finish : ℕ → DecryptReader
  at_finish k = record {
    aead = a;
    src = record { rest = []; ending = eof };
    unread = [];
    nonce = set_last_chunk_flag (nonce_at (k + 1));
    error = some eof;
  }

  asks : (n == 0) ≡ false
  asks = ground (arith, chunk_size_pos)

  read-more :
      (k : ℕ) (c cipher : Bytes)
      → length c ≡ chunk_size
      → k + 1 < 256 ^ 11
      → read n (at_chunk k (a.seal (nonce_bytes (nonce_at k)) c ++ cipher))
        ≡ done (value c) (at_chunk (k + 1) cipher)
  unfolding read after_read_chunk read_chunk read_full open_chunk open_full accept_chunk
  read-more k c cipher fits small =
      let s = a.seal (nonce_bytes (nonce_at k)) c in
      let len : length s ≡ enc_chunk_size =
        laws.length_seal (nonce_bytes (nonce_at k)) c ∙ ap (λ (x : ℕ). x + overhead) fits in
      let enough : leb enc_chunk_size (length (s ++ cipher)) ≡ true =
        ground (arith, len, length-append s cipher) in
      let taken : take enc_chunk_size (s ++ cipher) ≡ s =
        ap (λ (x : ℕ). take x (s ++ cipher)) (sym len) ∙ take-append s cipher in
      let dropped : drop enc_chunk_size (s ++ cipher) ≡ cipher =
        ap (λ (x : ℕ). drop x (s ++ cipher)) (sym len) ∙ drop-append s cipher in
      let (all, none_left) = whole_taken n c (omega (arith, fits, room)) in
      rw
        (
          asks,
          enough,
          taken,
          laws.open_seal (nonce_bytes (nonce_at k)) c,
          accept_chunk,
          inc_nonce-nonce_at k small,
          dropped,
          all,
          none_left,
        )
        refl

  read-last :
      (k : ℕ) (c : Bytes)
      → length c ≤ chunk_size
      → (k ≡ 0) ⊎ (0 < length c)
      → k + 1 < 256 ^ 11
      → read n (at_chunk k (a.seal (nonce_bytes (set_last_chunk_flag (nonce_at k))) c))
        ≡ done (value c) (at_finish k)
  unfolding read after_read_chunk read_chunk read_full open_chunk open_full open_last accept_chunk
      check_end
  read-last k c fits first small =
      let s = a.seal (nonce_bytes (set_last_chunk_flag (nonce_at k))) c in
      let len : length s ≡ length c + overhead = laws.length_seal _ c in
      let opens = laws.open_seal (nonce_bytes (set_last_chunk_flag (nonce_at k))) c in
      let (all, none_left) = whole_taken n c (omega (arith, fits, room)) in
      elim (Bool-cases (leb enc_chunk_size (length s))) [
        | inl enough ↦
            let exact : length s ≡ enc_chunk_size = ground (arith, len, fits, enough) in
            let (taken, dropped) = whole_taken enc_chunk_size s (omega (arith, exact)) in
            rw
              (
                asks,
                enough,
                taken,
                flag_matters k c,
                open_last,
                taken,
                opens,
                accept_chunk,
                inc_nonce-last k small,
                dropped,
                all,
                none_left,
              )
              refl
        | inr less ↦
            rw
              (
                asks,
                less,
                filled_part-short s (omega (arith, len)),
                tests s len,
                open_last,
                opens,
                accept_chunk,
                inc_nonce-last k small,
                all,
                none_left,
              )
              refl
      ]
    where
      tests :
          (s : Bytes)
          → length s ≡ length c + overhead
          → (not (nonce_is_zero (nonce_at k)) && length s == overhead) ≡ false
      tests s len = elim first [
        | inl zero_ ↦ rw (zero_, nonce_is_zero-zero) refl
        | inr some_ ↦
            let differ : (length s == overhead) ≡ false = ground (arith, len, some_) in
            elim (Bool-cases (nonce_is_zero (nonce_at k))) [
              | inl is_zero ↦ rw is_zero refl
              | inr other ↦ rw (other, differ) refl
            ]
      ]

  -- A round of the client that delivers `b` and leaves `r'`.
  read_all-step :
      (fuel : ℕ) (r r' : DecryptReader) (b bs : Bytes)
      → read n r ≡ done (value b) r'
      → read_all n fuel r' ≡ some (bs, eof)
      → read_all n (suc fuel) r ≡ some (b ++ bs, eof)
  unfolding read_all
  read_all-step fuel r r' b bs run all = rw (read_all, run, all) refl

  read_all-end : (fuel k : ℕ) → read_all n (suc fuel) (at_finish k) ≡ some ([], eof)
  unfolding read_all read
  read_all-end fuel k = refl

  read_all-last :
      (fuel k : ℕ) (c : Bytes)
      → length c ≤ chunk_size
      → (k ≡ 0) ⊎ (0 < length c)
      → k + 1 < 256 ^ 11
      → 1 < fuel
      → read_all n fuel (at_chunk k (a.seal (nonce_bytes (set_last_chunk_flag (nonce_at k))) c))
        ≡ some (c, eof)
  read_all-last zero k c fits first small enough = absurd (omega arith)
  read_all-last (suc zero) k c fits first small enough = absurd (omega arith)
  read_all-last (suc (suc fuel)) k c fits first small enough =
      read_all-step (suc fuel) _ _ c [] (read-last k c fits first small) (read_all-end fuel k)
      ∙ ap (λ (x : Bytes). some (x, eof)) (append-nil c)

  read_all-Rest :
      (fuel k : ℕ) (plain cipher : Bytes)
      → Rest a k plain cipher
      → length cipher < fuel
      → k + length cipher < 2 ^ 80
      → read_all n fuel (at_chunk k cipher) ≡ some (plain, eof)
  read_all-Rest zero k plain cipher r enough small = absurd (omega arith)
  read_all-Rest (suc fuel) k plain cipher (at_last c fits first) enough small =
      read_all-last (suc fuel) k c fits first (omega arith)
        (omega (arith, enough, laws.length_seal (nonce_bytes (set_last_chunk_flag (nonce_at k))) c))
  read_all-Rest (suc fuel) k plain cipher (more {plain = p} {cipher = rest} c fits r) enough small =
      let s = a.seal (nonce_bytes (nonce_at k)) c in
      let len = laws.length_seal (nonce_bytes (nonce_at k)) c in
      let both = length-append s rest in
      read_all-step fuel _ _ c p
        (read-more k c rest fits (omega arith)
          ∙ ap (λ (j : ℕ). done (value c) (at_chunk j rest)) (omega arith))
        (read_all-Rest fuel (suc k) p rest r (omega (arith, enough, len, both))
          (omega (arith, small, len, both)))

  -- A client whose buffer holds a chunk reads all of a sealed message below 2 ^ 80 bytes, and then
  -- io.EOF, if no chunk sealed as the last one opens as another one.
  pub read_all-Sealed :
      (plain cipher : Bytes)
      → Sealed a plain cipher
      → length cipher < 2 ^ 80
      → read_all n (suc (length cipher)) (record {
        aead = a;
        src = record { rest = cipher; ending = eof };
        unread = [];
        nonce = new_nonce;
        error = none;
      })
        ≡ some (plain, eof)
  read_all-Sealed plain cipher s small = rw new_nonce-nonce_at (
      read_all-Rest (suc (length cipher)) 0 plain cipher (Sealed-Rest a plain cipher s)
        (omega arith) (omega arith))
