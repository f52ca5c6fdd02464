-- ===== src/Stream/RandomAccess.antt =====
-- ReadAt of a DecryptReaderAt (stream/stream.go) over a sealed message.
use darkbio_crypto_go.Base.{
  ℕ, zero, suc, ◌+◌, ◌*◌, ◌-◌, ◌/◌, ◌≤◌, ◌<◌, ◌≡◌, refl, sym, ap, ap₂, ◌∙◌, inl, inr, Option, some,
  none, true, false, ◌&&◌, not, [], ◌∷◌, ◌++◌, min, length, length-drop, take, drop, drop-drop,
  whole_taken, ltb, leb, ◌==◌, if◌then◌else◌, Bool-cases, arith,
}
use darkbio_crypto_go.Base.Int.{pos}
use darkbio_crypto_go.Stream.Types.{Bytes, eof, Aead, AeadLaws, chunk_size}
use darkbio_crypto_go.Stream.Size.{add64, sub64, mul64}
use darkbio_crypto_go.Stream.Reader.{value}
use darkbio_crypto_go.Stream.ReaderAt.{
  CachedChunk, DecryptReaderAt, Copied, copied, behind, copy_chunks, chunk_at, read_bytes,
  of_stream, store, finish_read, read_at,
}
use darkbio_crypto_go.Stream.Places.{chunk_size-eq}
use darkbio_crypto_go.Stream.Fetching.{piece, Coherent, Valid, chunk_at-Valid}

not_ltb : (m n : ℕ) → n ≤ m → ltb m n ≡ false
not_ltb m n h = ground arith

end_reached : (off n l : ℕ) → off ≤ l → (off + min n (l - off) == l) ≡ leb l (off + n)
end_reached off n l h = ground arith

take_nil : (n : ℕ) → take {A = ℕ} n [] ≡ []
take_nil zero = refl
take_nil (suc n) = refl

take_piece : (m s k : ℕ) (xs : Bytes) → k + s ≤ m → take k (drop s (take m xs)) ≡ take k (drop s xs)
take_piece zero s k xs h = let e : k ≡ 0 = omega (arith, h) in rw e
take_piece (suc m) s k [] h = refl
take_piece (suc m) zero zero (x ∷ xs) h = refl
take_piece (suc m) zero (suc k) (x ∷ xs) h =
    ap (λ (l : Bytes). x ∷ l) (take_piece m zero k xs (omega (arith, h)))
take_piece (suc m) (suc s) k (x ∷ xs) h = take_piece m s k xs (omega (arith, h))

take_split : (k n : ℕ) (xs : Bytes) → k ≤ n → take k xs ++ take (n - k) (drop k xs) ≡ take n xs
take_split zero n xs h = let e : n - 0 ≡ n = omega arith in rw e
take_split (suc k) zero xs h = absurd (omega (arith, h))
take_split (suc k) (suc n) [] h = rw take_nil
take_split (suc k) (suc n) (x ∷ xs) h =
    let e : suc n - suc k ≡ n - k = omega arith in
    rw e (ap (λ (l : Bytes). x ∷ l) (take_split k n xs (omega (arith, h))))

length-take : (n : ℕ) (xs : Bytes) → length (take n xs) ≡ min n (length xs)
length-take zero xs = omega arith
length-take (suc n) [] = omega arith
length-take (suc n) (x ∷ xs) = omega (arith, length-take n xs)

nothing_left :
    (n off : ℕ) (xs : Bytes) → (ltb 0 n && ltb off (length xs)) ≡ false → take n (drop off xs) ≡ []
nothing_left zero off xs h = refl
nothing_left (suc n) off xs h =
    let past : length xs ≤ off = ground arith in
    ap (λ (l : Bytes). take (suc n) l) (whole_taken off xs past).1

copy_zero :
    (r : DecryptReaderAt) (n off : ℕ) (u : Option CachedChunk)
    → copy_chunks zero r n off u ≡ copied [] off u
unfolding copy_chunks
copy_zero r n off u = refl

copy_done :
    (rounds n off : ℕ) (r : DecryptReaderAt) (u : Option CachedChunk)
    → (ltb 0 n && ltb off r.size) ≡ false
    → copy_chunks (suc rounds) r n off u ≡ copied [] off u
unfolding copy_chunks
copy_done rounds n off r u h = rw h

copy_round :
    (rounds n off start next : ℕ) (content : Bytes) (r : DecryptReaderAt)
    (u u' : Option CachedChunk) (result : Copied)
    → (ltb 0 n && ltb off r.size) ≡ true
    → chunk_at r off ≡ value (content, u')
    → sub64 off (mul64 (off / chunk_size) chunk_size) ≡ start
    → ltb (length content) start ≡ false
    → add64 off (min (length content - start) n) ≡ next
    → copy_chunks rounds r (n - min (length content - start) n) next u' ≡ result
    → copy_chunks (suc rounds) r n off u
      ≡ behind (take (min (length content - start) n) (drop start content)) result
unfolding copy_chunks
copy_round rounds n off start next content r u u' result more at_chunk index within step rest =
    rw (more, at_chunk, index, within, step)
      (ap (λ (x : Copied). behind (take (min (length content - start) n) (drop start content)) x)
        rest)

module _ (a : Aead) (laws : AeadLaws a) (plain cipher : Bytes) where
  -- The state of the loop behind its rounds.
  abbrev Copies : Copied → ℕ → ℕ → Type 0
  Copies result n off =
      (u : Option CachedChunk) × (result
        ≡ copied (take n (drop off plain)) (off + min n (length plain - off)) u)
      × Coherent plain u

  -- A round copies a part of its chunk, which is the next part of the plaintext.
  round-copies :
      (off n : ℕ)
      → off < length plain
      → let start = off - off / 65536 * 65536 in
        let size = min (length (piece plain (off / 65536)) - start) n in
        (start ≤ length (piece plain (off / 65536)))
        × (take size (drop start (piece plain (off / 65536))) ≡ take size (drop off plain))
        × (size ≤ length plain - off)
        × ((0 < n) → 0 < size)
  round-copies off n lt =
      let q = off / 65536 in
      let start = off - q * 65536 in
      let count : length (piece plain q) ≡ min 65536 (length plain - q * 65536) =
        length-take chunk_size (drop (q * 65536) plain)
        ∙ ap₂ (λ (m l : ℕ). min m l) chunk_size-eq (length-drop (q * 65536) plain) in
      let size = min (length (piece plain q) - start) n in
      let place : q * 65536 + start ≡ off = omega arith in
      (
        omega (arith, count, lt),
        take_piece chunk_size start size (drop (q * 65536) plain)
              (omega (arith, count, chunk_size-eq, lt))
            ∙ ap (λ (l : Bytes). take size l)
                (drop-drop (q * 65536) start plain ∙ ap (λ (m : ℕ). drop m plain) place),
        omega (arith, count, lt),
        (λ some_. omega (arith, count, lt, some_)),
      )

  copy_chunks-Copies :
      (rounds n off : ℕ) (r : DecryptReaderAt) (u : Option CachedChunk)
      → Valid a plain cipher r
      → Coherent plain u
      → n ≤ rounds
      → off ≤ length plain
      → Copies (copy_chunks rounds r n off u) n off
  copy_chunks-Copies zero n off r u v c enough le =
      let none_ : n ≡ 0 = omega (arith, enough) in
      let same : off + min 0 (length plain - off) ≡ off = omega arith in
      (u, rw (copy_zero r n off u, none_, same), c)
  copy_chunks-Copies (suc rounds) n off r u v c enough le =
      elim (Bool-cases (ltb 0 n && ltb off (length plain))) [
        | inl more ↦
            let lt : off < length plain = ground arith in
            let some_ : 0 < n = ground arith in
            let q = off / 65536 in
            let (u', at_chunk, c') = chunk_at-Valid a laws plain cipher r off v lt in
            let index : sub64 off (mul64 (off / chunk_size) chunk_size) ≡ off - q * 65536 =
              ap (λ (m : ℕ). sub64 off (mul64 (off / m) m)) chunk_size-eq
              ∙ omega (arith, lt, v.small) in
            let start = off - q * 65536 in
            let size = min (length (piece plain q) - start) n in
            let (within, part, left, positive) = round-copies off n lt in
            let in_chunk : ltb (length (piece plain q)) start ≡ false = not_ltb _ _ within in
            let next : add64 off size ≡ off + size = omega (arith, left, v.small, lt) in
            let fewer : n - size ≤ rounds = omega (arith, enough, positive some_) in
            let (u'', rest, c'') =
              copy_chunks-Copies rounds (n - size) (off + size) r u' v c' fewer
                (omega (arith, left)) in
            let moved : off + size + min (n - size) (length plain - (off + size))
                ≡ off + min n (length plain - off) =
              omega (arith, left) in
            let whole : take size (drop off plain) ++ take (n - size) (drop (off + size) plain)
                ≡ take n (drop off plain) =
              ap (λ (l : Bytes). take size (drop off plain) ++ take (n - size) l)
                (sym (drop-drop off size plain))
              ∙ take_split size n (drop off plain) (omega arith) in
            (
              u'',
              copy_round rounds n off start (off + size) (piece plain q) r u u' _
                    (rw v.size_of more) at_chunk index in_chunk next rest
                  ∙ ap₂ (λ (b : Bytes) (o : ℕ). copied b o u'')
                      (ap (λ (b : Bytes). b ++ take (n - size) (drop (off + size) plain)) part
                        ∙ whole)
                      moved,
              c'',
            )
        | inr no_more ↦
            let same : off + min n (length plain - off) ≡ off = ground (arith, no_more) in
            let stop : (ltb 0 n && ltb off r.size) ≡ false = rw v.size_of no_more in
            (u, rw (copy_done rounds n off r u stop, nothing_left n off plain no_more, same), c)
      ]

  store-Valid :
      (u : Option CachedChunk) (r : DecryptReaderAt)
      → Valid a plain cipher r
      → Coherent plain u
      → Valid a plain cipher (store u r)
  store-Valid none r v c = v
  store-Valid (some k) r v c = record {
    same_aead = v.same_aead;
    message = v.message;
    small = v.small;
    delivers = v.delivers;
    size_of = v.size_of;
    chunks_of = v.chunks_of;
    coherent = c;
  }

  -- ReadAt of a valid reader of a sealed message, at an offset up to its plaintext's end, fills the
  -- buffer with the plaintext from there on, as far as it goes, reports io.EOF exactly if the
  -- buffer is nonempty and reaches the end, and leaves a valid reader.
  pub read_at-Valid :
      (r : DecryptReaderAt) (n off : ℕ)
      → Valid a plain cipher r
      → off ≤ length plain
      → (r' : DecryptReaderAt) × (read_at r n (pos off)
          ≡ read_bytes
              (take n (drop off plain))
              (if (not (n == 0)) && leb (length plain) (off + n)
                then some (of_stream eof)
                else none)
              r')
        × Valid a plain cipher r'
  unfolding read_at finish_read
  read_at-Valid r n off v le =
      let inside : ltb r.size off ≡ false = rw v.size_of (not_ltb (length plain) off le) in
      elim (Bool-cases (n == 0)) [
        | inl nothing ↦ let none_ : n ≡ 0 = ground arith in (r, rw (inside, none_), v)
        | inr some_ ↦
            let (u, copies, c) = copy_chunks-Copies n n off r none v tt (omega arith) le in
            let at_end : (off + min n (length plain - off) == r.size)
                ≡ leb (length plain) (off + n) =
              rw v.size_of (end_reached off n (length plain) le) in
            (store u r, rw (inside, some_, copies, finish_read, at_end), store-Valid u r v c)
      ]
