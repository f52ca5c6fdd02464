-- ===== src/Stream/Filling.antt =====
-- The loop of EncryptWriter.Write (stream/stream.go): full chunks go out, the rest is kept.
use darkbio_crypto_go.Base.{
  ℕ, zero, suc, ◌+◌, ◌-◌, ◌^◌, ◌≤◌, ◌<◌, ◌≡◌, refl, sym, ap, ap₂, ◌∙◌, subst, ◌⊎◌, inl, inr, min,
  Option, some, none, true, false, ◌&&◌, List, [], ◌∷◌, ◌++◌, append_assoc, append-nil, length,
  length-append, length-take_le, length-drop, take, drop, take-append-drop, take-length,
  drop-length, ltb, leb, ◌==◌, Bool-cases, arith,
}
use darkbio_crypto_go.Stream.Types.{Bytes, StreamError, done, Aead, chunk_size, chunk_size_pos}
use darkbio_crypto_go.Stream.Nonce.{Nonce, nonce_bytes, nonce_at, inc_nonce, inc_nonce-nonce_at}
use darkbio_crypto_go.Stream.Writer.{EncryptWriter, flush_chunk, after_flush, write_loop}
use darkbio_crypto_go.Stream.Sealed.{Chunks, chunk, Chunks-le_length}

regroup :
    {A : Type 0} (x y p : List A) (n : ℕ) → x ++ (y ++ take n p) ++ [] ++ drop n p ≡ x ++ y ++ p
regroup x y p n = simp (append-nil, append_assoc, take-append-drop)

module _ (a : Aead) {D : Type 0} (write_dst : D → Bytes → Option StreamError × D)
    (contents : D → Bytes)
    (accepts : (d : D) (b : Bytes)
      → ((write_dst d b).0 ≡ none) × (contents (write_dst d b).1 ≡ contents d ++ b)) where
  -- The chunks written so far are `k` full ones.
  pub record Going (k : ℕ) (plain : Bytes) (w : EncryptWriter D) : Type 0 where
    pub same_aead : w.aead ≡ a
    pub nonce_of : w.nonce ≡ nonce_at k
    pub no_error : w.error ≡ none
    pub chunks : Chunks a k plain (contents w.dst)

  -- `t` has been written: full chunks are out, and the rest is in the buffer.
  pub record Holding (t : Bytes) (w : EncryptWriter D) : Type 0 where
    pub k : ℕ
    pub plain : Bytes
    pub going : Going k plain w
    pub parts : t ≡ plain ++ w.buf
    pub room : length w.buf ≤ chunk_size
    pub started : (k ≡ 0) ⊎ (0 < length w.buf)

  abbrev after_chunk : ℕ → EncryptWriter D → EncryptWriter D
  after_chunk k w =
      let sent = w.aead.seal (nonce_bytes w.nonce) w.buf in
      record w { dst = (write_dst w.dst sent).1; buf = []; nonce = nonce_at (k + 1) }

  flush_chunk-full :
      (k : ℕ) (plain : Bytes) (w : EncryptWriter D)
      → Going k plain w
      → length w.buf ≡ chunk_size
      → k + 1 < 256 ^ 11
      → flush_chunk write_dst false w ≡ done none (after_chunk k w)
  unfolding flush_chunk
  flush_chunk-full k plain w g full small =
      let is_full : (length w.buf == chunk_size) ≡ true = ground arith in
      let counted : inc_nonce w.nonce ≡ some (nonce_at (k + 1)) =
        ap inc_nonce g.nonce_of ∙ inc_nonce-nonce_at k small in
      rw (is_full, counted, (accepts w.dst _).0) refl

  after_chunk-Going :
      (k : ℕ) (plain : Bytes) (w : EncryptWriter D)
      → Going k plain w
      → length w.buf ≡ chunk_size
      → Going (suc k) (plain ++ w.buf) (after_chunk k w)
  after_chunk-Going k plain w g full = record {
    same_aead = g.same_aead;
    nonce_of = ap nonce_at (omega arith);
    no_error = g.no_error;
    chunks =
        subst (λ (c : Bytes). Chunks a (suc k) (plain ++ w.buf) c)
          (sym (
            (accepts w.dst _).1
            ∙ ap (λ (s : Bytes). contents w.dst ++ s)
                (ap₂ (λ (x : Aead) (n : Nonce). x.seal (nonce_bytes n) w.buf) g.same_aead
                  g.nonce_of)))
          (chunk w.buf g.chunks full);
  }

  abbrev fill : ℕ → Bytes → EncryptWriter D → EncryptWriter D
  fill n p w = record w { buf = w.buf ++ take n p }

  fill-Going :
      (k : ℕ) (plain : Bytes) (n : ℕ) (p : Bytes) (w : EncryptWriter D)
      → Going k plain w
      → Going k plain (fill n p w)
  fill-Going k plain n p w g = record {
    same_aead = g.same_aead;
    nonce_of = g.nonce_of;
    no_error = g.no_error;
    chunks = g.chunks;
  }

  abbrev pub Loops : ℕ → Bytes → Bytes → EncryptWriter D → Type 0
  Loops fuel t p w =
      (w' : EncryptWriter D) × (write_loop write_dst fuel p w ≡ done none w') × Holding t w'

  -- Everything that is left fits in the buffer.
  write_loop-last :
      (fuel k : ℕ) (plain : Bytes) (b : ℕ) (bs : Bytes) (w : EncryptWriter D)
      → Going k plain w
      → length w.buf + length (b ∷ bs) ≤ chunk_size
      → Loops (suc fuel) (plain ++ w.buf ++ b ∷ bs) (b ∷ bs) w
  unfolding write_loop
  write_loop-last fuel k plain b bs w g fits =
      let p = b ∷ bs in
      let all : min (length p) (chunk_size - length w.buf) ≡ length p = omega arith in
      let taken : take (length p) p ≡ p = take-length p in
      let dropped : drop (length p) p ≡ [] = drop-length p in
      let test : (length (w.buf ++ take (length p) p) == chunk_size
            && ltb 0 (length (drop (length p) p)))
          ≡ false =
        ground (arith, ap length dropped) in
      (
        fill (length p) p w,
        rw (all, test, dropped) refl,
        record {
          k = k;
          plain = plain;
          going = fill-Going k plain (length p) p w g;
          parts = rw taken (append_assoc plain w.buf p);
          room = rw taken (omega (arith, length-append w.buf p));
          started = inr (rw taken (omega (arith, length-append w.buf p)));
        },
      )

  pub few :
      (k : ℕ) (plain : Bytes) (w : EncryptWriter D)
      → Going k plain w
      → length plain < 2 ^ 80
      → k + 1 < 256 ^ 11
  few k plain w g short = omega (arith, Chunks-le_length a k plain _ g.chunks)

  filled :
      (w : EncryptWriter D) (p : Bytes) (room : ℕ)
      → length w.buf + room ≡ chunk_size
      → room < length p
      → length (w.buf ++ take room p) ≡ chunk_size
  filled w p room full more =
      omega (arith, length-append w.buf (take room p), length-take_le room p (omega arith), full)

  -- The buffer is filled up to a chunk, and more is left.
  write_loop-chunk :
      (fuel k room : ℕ) (plain : Bytes) (b : ℕ) (bs : Bytes) (w : EncryptWriter D)
      → Going k plain w
      → length w.buf + room ≡ chunk_size
      → room < length (b ∷ bs)
      → k + 1 < 256 ^ 11
      → write_loop write_dst (suc fuel) (b ∷ bs) w
        ≡ write_loop write_dst fuel (drop room (b ∷ bs)) (after_chunk k (fill room (b ∷ bs) w))
  unfolding write_loop after_flush
  write_loop-chunk fuel k room plain b bs w g full more small =
      let p = b ∷ bs in
      let part : min (length p) (chunk_size - length w.buf) ≡ room = omega arith in
      let whole : length (w.buf ++ take room p) ≡ chunk_size = filled w p room full more in
      let test : (length (w.buf ++ take room p) == chunk_size && ltb 0 (length (drop room p)))
          ≡ true =
        ground (arith, length-drop room p, whole) in
      rw
        (
          part,
          test,
          flush_chunk-full k plain (fill room p w) (fill-Going k plain room p w g) whole small,
        )
        refl

  write_loop-Holding :
      (fuel k : ℕ) (plain p : Bytes) (w : EncryptWriter D)
      → Going k plain w
      → length w.buf < chunk_size
      → length p ≤ fuel
      → (k ≡ 0) ⊎ (0 < length w.buf + length p)
      → length (plain ++ w.buf ++ p) < 2 ^ 80
      → Loops fuel (plain ++ w.buf ++ p) p w
  write_loop-Holding fuel k plain [] w g lt enough started short = (
    w,
    unfold write_loop in refl,
    record {
      k = k;
      plain = plain;
      going = g;
      parts = append-nil _;
      room = omega arith;
      started = elim started [ inl first ↦ inl first | inr more ↦ inr (omega (arith, more)) ];
    },
  )
  write_loop-Holding zero k plain (b ∷ bs) w g lt enough started short = absurd (omega arith)
  write_loop-Holding (suc fuel) k plain (b ∷ bs) w g lt enough started short =
      elim (Bool-cases (leb (length w.buf + length (b ∷ bs)) chunk_size)) [
        | inl fits ↦ write_loop-last fuel k plain b bs w g (ground arith)
        | inr more ↦
            let p = b ∷ bs in
            let room = chunk_size - length w.buf in
            let full : length w.buf + room ≡ chunk_size = omega arith in
            let some_left : room < length p = ground arith in
            let small : k + 1 < 256 ^ 11 =
              few k plain w g
                (omega (arith, length-append (plain ++ w.buf) p, length-append plain w.buf)) in
            let w1 = fill room p w in
            let whole : length w1.buf ≡ chunk_size = filled w p room full some_left in
            let same = regroup plain w.buf p room in
            let (w', run, holds) =
              write_loop-Holding fuel (suc k) (plain ++ w1.buf) (drop room p) (after_chunk k w1)
                (after_chunk-Going k plain w1 (fill-Going k plain room p w g) whole) chunk_size_pos
                (omega (arith, length-drop room p)) (inr (omega (arith, length-drop room p)))
                (rw (sym (ap length same)) at short) in
            (
              w',
              write_loop-chunk fuel k room plain b bs w g full some_left small ∙ run,
              subst (λ (t : Bytes). Holding t w') same holds,
            )
      ]

  -- The first round of a Write that finds the buffer full only makes room.
  pub write_loop-all :
      (k : ℕ) (plain p : Bytes) (w : EncryptWriter D)
      → Going k plain w
      → length w.buf ≤ chunk_size
      → (k ≡ 0) ⊎ (0 < length w.buf)
      → length (plain ++ w.buf ++ p) < 2 ^ 80
      → 0 < length p
      → Loops (suc (length p)) (plain ++ w.buf ++ p) p w
  write_loop-all k plain [] w g le started short some_ = absurd (omega arith)
  write_loop-all k plain (b ∷ bs) w g le started short some_ =
      elim (Bool-cases (ltb (length w.buf) chunk_size)) [
        | inl lt ↦
            write_loop-Holding (suc (length (b ∷ bs))) k plain (b ∷ bs) w g (ground arith)
              (omega arith) (inr (omega arith)) short
        | inr full ↦
            let no_room : length w.buf + 0 ≡ chunk_size = ground arith in
            let small =
              few k plain w g (
                omega
                  (arith, length-append (plain ++ w.buf) (b ∷ bs), length-append plain w.buf)) in
            let w1 = fill 0 (b ∷ bs) w in
            let same = regroup plain w.buf (b ∷ bs) 0 in
            let (w', run, holds) =
              write_loop-Holding (length (b ∷ bs)) (suc k) (plain ++ w1.buf) (b ∷ bs)
                (after_chunk k w1)
                (after_chunk-Going k plain w1 (fill-Going k plain 0 (b ∷ bs) w g)
                  (filled w (b ∷ bs) 0 no_room some_))
                chunk_size_pos (omega arith) (inr (omega arith))
                (rw (sym (ap length same)) at short) in
            (
              w',
              write_loop-chunk (length (b ∷ bs)) k 0 plain b bs w g no_room some_ small ∙ run,
              subst (λ (t : Bytes). Holding t w') same holds,
            )
      ]
