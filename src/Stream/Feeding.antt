-- ===== src/Stream/Feeding.antt =====
-- EncryptReader (stream/stream.go) delivers a sealed message.
use darkbio_crypto_go.Base.{
  ℕ, zero, suc, ◌+◌, ◌-◌, ◌^◌, ◌≤◌, ◌<◌, ◌≡◌, ◌≢◌, refl, sym, ap, ap₂, ◌∙◌, subst, ◌⊎◌, inl, inr,
  min, Option, some, none, true, false, [], ◌∷◌, ◌++◌, append_assoc, append-nil, length,
  length-append, length-take_le, length-drop, whole_taken, take, drop, take-append-drop,
  take-length, take-append, drop-append, drop-drop, ltb, leb, ◌==◌, Bool-cases, if◌then◌else◌,
  arith,
}
use darkbio_crypto_go.Stream.Types.{
  Bytes, StreamError, eof, unexpected_eof, invalid_key, invalid_size, trailing_data,
  empty_last_chunk, corrupted, closed, source, Run, done, panic, Aead, AeadLaws, chunk_size,
  chunk_size_pos, enc_chunk_size, overhead,
}
use darkbio_crypto_go.Stream.Nonce.{
  Nonce, nonce_bytes, nonce_at, set_last_chunk_flag, inc_nonce, inc_nonce-nonce_at, inc_nonce-last,
}
use darkbio_crypto_go.Stream.Reader.{Source, Outcome, value, error}
use darkbio_crypto_go.Stream.EncryptReader.{
  EncryptReader, end_error, copy_error, copied, seal_last, seal_chunk, feed_buffer, hand_out,
}
use darkbio_crypto_go.Stream.Sealed.{Chunks, chunk, Sealed, sealed, Chunks-le_length}

take-take-drop : (m j : ℕ) (xs : Bytes) → take m xs ++ take j (drop m xs) ≡ take (m + j) xs
take-take-drop zero j xs = let e : 0 + j ≡ j = omega arith in rw e refl
take-take-drop (suc m) zero [] = let e : suc m + 0 ≡ suc m = omega arith in rw e refl
take-take-drop (suc m) (suc j) [] =
    let e : suc m + suc j ≡ suc (m + suc j) = omega arith in rw e refl
take-take-drop (suc m) j (x ∷ xs) =
    let e : suc m + j ≡ suc (m + j) = omega arith in
    rw e (ap (λ (l : Bytes). x ∷ l) (take-take-drop m j xs))

-- One byte more than fits in a chunk is asked for: if it does not come, all bytes have.
filled_or_gone :
    (buf rest : Bytes) (n : ℕ)
    → length buf ≤ 1
    → n ≡ chunk_size - length buf + 1
    → (length (buf ++ take n rest) ≡ chunk_size + 1)
      ⊎ ((length (buf ++ take n rest) ≤ chunk_size) × (drop n rest ≡ []))
filled_or_gone buf rest n few e = elim (Bool-cases (leb n (length rest))) [
  | inl enough ↦ inl (
      omega (
        arith,
        e,
        chunk_size_pos,
        length-append buf (take n rest),
        length-take_le n rest (ground arith),
      ))
  | inr less ↦
      let (all, gone) = whole_taken n rest (ground arith) in
      let short : length rest < n = ground arith in
      inr (
        omega (arith, e, short, chunk_size_pos, length-append buf (take n rest), ap length all),
        gone,
      )
]

-- The first `m` of `k` bytes are handed out.
hand_over :
    (out buf : Bytes) (m k : ℕ)
    → m ≤ k
    → out ++ take k buf ≡ out ++ take m buf ++ take (k - m) (drop m buf)
hand_over out buf m k h =
    let all : m + (k - m) ≡ k = omega arith in
    ap (λ (x : Bytes). out ++ x)
      (ap (λ (j : ℕ). take j buf) (sym all) ∙ sym (take-take-drop m (k - m) buf))
    ∙ sym (append_assoc out _ _)

module _ (a : Aead) where
  -- Full chunks have been sealed, `out` has been delivered, and at most a byte was read ahead.
  pub record Feeding (total out : Bytes) (r : EncryptReader) : Type 0 where
    pub k : ℕ
    pub plain : Bytes
    pub cipher : Bytes
    pub chunks : Chunks a k plain cipher
    pub sent : cipher ≡ out ++ take r.ready r.buf
    pub left : total ≡ plain ++ drop r.ready r.buf ++ r.src.rest
    pub within : r.ready ≤ length r.buf
    pub ahead : length (drop r.ready r.buf) ≤ 1
    pub started : (k ≡ 0) ⊎ (0 < length (drop r.ready r.buf))
    pub nonce_of : r.nonce ≡ nonce_at k
    pub same_aead : r.aead ≡ a

  pub record Finished (total out : Bytes) (r : EncryptReader) : Type 0 where
    pub cipher : Bytes
    pub message : Sealed a total cipher
    pub sent : cipher ≡ out ++ take r.ready r.buf
    pub failed : r.failure ≡ some eof

  pub data Feeds (total out : Bytes) (r : EncryptReader) : Type 0 where
    feeding : r.failure ≡ none → Feeding total out r → Feeds total out r
    finished : Finished total out r → Feeds total out r
    broken : (e : StreamError) → r.failure ≡ some e → e ≢ eof → r.ready ≡ 0 → Feeds total out r

  abbrev pub GoodRead : Bytes → Bytes → Run EncryptReader (Outcome Bytes) → Type 0
  GoodRead total out panic = ⊥
  GoodRead total out (done (value b) r) = Feeds total (out ++ b) r
  GoodRead total out (done (error e) r) = (e ≡ eof → Sealed a total out) × Feeds total out r

  pub hand_out-Feeding :
      (total out : Bytes) (n : ℕ) (r : EncryptReader)
      → r.failure ≡ none
      → Feeding total out r
      → GoodRead total out (hand_out n r)
  hand_out-Feeding total out n r clean f =
      let m = min n r.ready in
      let same : drop (r.ready - m) (drop m r.buf) ≡ drop r.ready r.buf =
        drop-drop m (r.ready - m) r.buf ∙ ap (λ (j : ℕ). drop j r.buf) (omega arith) in
      feeding clean (record {
        k = f.k;
        plain = f.plain;
        cipher = f.cipher;
        chunks = f.chunks;
        sent = f.sent ∙ hand_over out r.buf m r.ready (omega arith);
        left = f.left ∙ ap (λ (x : Bytes). f.plain ++ x ++ r.src.rest) (sym same);
        within = omega (arith, length-drop m r.buf, f.within);
        ahead = rw same f.ahead;
        started = rw same f.started;
        nonce_of = f.nonce_of;
        same_aead = f.same_aead;
      })

  pub hand_out-Finished :
      (total out : Bytes) (n : ℕ) (r : EncryptReader)
      → Finished total out r
      → GoodRead total out (hand_out n r)
  hand_out-Finished total out n r f = finished (record {
    cipher = f.cipher;
    message = f.message;
    sent = f.sent ∙ hand_over out r.buf (min n r.ready) r.ready (omega arith);
    failed = f.failed;
  })

  abbrev pub GoodFeed : Bytes → Bytes → Run EncryptReader (Option StreamError) → Type 0
  GoodFeed total out panic = ⊥
  GoodFeed total out (done (some e) r) = (e ≢ eof) × (r.ready ≡ 0)
  GoodFeed total out (done none r) =
      ((r.failure ≡ none) × Feeding total out r) ⊎ Finished total out r

  end_error_inv : (o e : StreamError) → end_error o ≡ some e → e ≢ eof
  end_error_inv eof e h = cc
  end_error_inv unexpected_eof e h = λ q. cc
  end_error_inv invalid_key e h = λ q. cc
  end_error_inv invalid_size e h = λ q. cc
  end_error_inv trailing_data e h = λ q. cc
  end_error_inv empty_last_chunk e h = λ q. cc
  end_error_inv corrupted e h = λ q. cc
  end_error_inv closed e h = λ q. cc
  end_error_inv (source n) e h = λ q. cc

  copy_error_inv : (n : ℕ) (src : Source) (e : StreamError) → copy_error n src ≡ some e → e ≢ eof
  copy_error_inv n src e h = elim (Bool-cases (leb n (length src.rest))) [
    | inl enough ↦ let clash : none ≡ some e = rw enough at h in absurd (cc)
    | inr less ↦ end_error_inv src.ending e (rw less at h)
  ]

  -- The buffer is filled and what it holds is not sealed yet.
  record Loaded (total out : Bytes) (r : EncryptReader) : Type 0 where
    k : ℕ
    plain : Bytes
    chunks : Chunks a k plain out
    left : total ≡ plain ++ r.buf ++ r.src.rest
    started : (k ≡ 0) ⊎ (0 < length r.buf)
    nonce_of : r.nonce ≡ nonce_at k
    same_aead : r.aead ≡ a
    clean : r.failure ≡ none
    small : k + 1 < 256 ^ 11

  seal_last-GoodFeed :
      (total out : Bytes) (r : EncryptReader)
      → Loaded total out r
      → length r.buf ≤ chunk_size
      → r.src.rest ≡ []
      → GoodFeed total out (seal_last r)
  unfolding seal_last
  seal_last-GoodFeed total out r h fits nothing =
      let next : inc_nonce (set_last_chunk_flag r.nonce)
          ≡ some (set_last_chunk_flag (nonce_at (h.k + 1))) =
        ap (λ (n : Nonce). inc_nonce (set_last_chunk_flag n)) h.nonce_of
        ∙ inc_nonce-last h.k h.small in
      let all : total ≡ h.plain ++ r.buf =
        h.left
        ∙ ap (λ (x : Bytes). h.plain ++ r.buf ++ x) nothing
        ∙ append-nil (h.plain ++ r.buf) in
      let sent_as : r.aead.seal (nonce_bytes (set_last_chunk_flag r.nonce)) r.buf
          ≡ a.seal (nonce_bytes (set_last_chunk_flag (nonce_at h.k))) r.buf =
        ap₂ (λ (x : Aead) (n : Nonce). x.seal (nonce_bytes (set_last_chunk_flag n)) r.buf)
          h.same_aead h.nonce_of in
      rw next (
        inr (record {
          cipher = out ++ r.aead.seal (nonce_bytes (set_last_chunk_flag r.nonce)) r.buf;
          message =
              subst
                (λ (x : Bytes).
                  Sealed a x (out ++ r.aead.seal (nonce_bytes (set_last_chunk_flag r.nonce)) r.buf))
                (sym all)
                (subst (λ (x : Bytes). Sealed a (h.plain ++ r.buf) (out ++ x)) (sym sent_as)
                  (sealed r.buf h.chunks fits h.started));
          sent = ap (λ (x : Bytes). out ++ x) (sym (take-length _));
          failed = refl;
        }))

  seal_chunk-GoodFeed :
      (total out : Bytes) (r : EncryptReader)
      → AeadLaws a
      → Loaded total out r
      → length r.buf ≡ chunk_size + 1
      → r.ready ≡ 0
      → GoodFeed total out (seal_chunk r)
  unfolding seal_chunk
  seal_chunk-GoodFeed total out r laws h fits idle =
      let next : inc_nonce r.nonce ≡ some (nonce_at (h.k + 1)) =
        ap inc_nonce h.nonce_of ∙ inc_nonce-nonce_at h.k h.small in
      let full : (length r.buf == chunk_size + 1) ≡ true = ground (arith, fits) in
      let s = r.aead.seal (nonce_bytes r.nonce) (take chunk_size r.buf) in
      let tail = drop chunk_size r.buf in
      let whole : length (take chunk_size r.buf) ≡ chunk_size =
        length-take_le chunk_size r.buf (omega (arith, fits)) in
      let sent_as : s ≡ a.seal (nonce_bytes (nonce_at h.k)) (take chunk_size r.buf) =
        ap₂ (λ (x : Aead) (n : Nonce). x.seal (nonce_bytes n) (take chunk_size r.buf)) h.same_aead
          h.nonce_of in
      let len : length s ≡ enc_chunk_size =
        ap length sent_as
        ∙ laws.length_seal (nonce_bytes (nonce_at h.k)) (take chunk_size r.buf)
        ∙ ap (λ (x : ℕ). x + overhead) whole in
      let taken : take enc_chunk_size (s ++ tail) ≡ s =
        ap (λ (x : ℕ). take x (s ++ tail)) (sym len) ∙ take-append s tail in
      let dropped : drop enc_chunk_size (s ++ tail) ≡ tail =
        ap (λ (x : ℕ). drop x (s ++ tail)) (sym len) ∙ drop-append s tail in
      let one : length (drop enc_chunk_size (s ++ tail)) ≡ 1 =
        ap length dropped ∙ omega (arith, length-drop chunk_size r.buf, fits) in
      rw (full, next)
        (inl (
          h.clean,
          record {
            k = suc h.k;
            plain = h.plain ++ take chunk_size r.buf;
            cipher = out ++ s;
            chunks =
                subst
                  (λ (x : Bytes). Chunks a (suc h.k) (h.plain ++ take chunk_size r.buf) (out ++ x))
                  (sym sent_as) (chunk (take chunk_size r.buf) h.chunks whole);
            sent = ap (λ (x : Bytes). out ++ x) (sym taken);
            left =
                h.left
                ∙ ap (λ (x : Bytes). x ++ r.src.rest)
                    (ap (λ (x : Bytes). h.plain ++ x) (sym (take-append-drop chunk_size r.buf))
                      ∙ sym (append_assoc h.plain (take chunk_size r.buf) tail)
                      ∙ ap (λ (x : Bytes). h.plain ++ take chunk_size r.buf ++ x) (sym dropped));
            within = omega (arith, len, length-append s tail);
            ahead = omega (arith, one);
            started = inr (omega (arith, one));
            nonce_of = ap nonce_at (omega arith);
            same_aead = h.same_aead;
          },
        ))

  pub feed_buffer-GoodFeed :
      (total out : Bytes) (r : EncryptReader)
      → AeadLaws a
      → length total < 2 ^ 80
      → r.failure ≡ none
      → Feeding total out r
      → r.ready ≡ 0
      → GoodFeed total out (feed_buffer r)
  unfolding feed_buffer
  feed_buffer-GoodFeed total out r laws few clean f idle =
      let quiet : ltb 0 r.ready ≡ false = ground (arith, idle) in rw quiet (copies _ refl)
    where
      short : length r.buf ≤ 1
      short = omega (arith, length-drop r.ready r.buf, f.ahead, idle)

      unread : drop r.ready r.buf ≡ r.buf
      unread = ap (λ (j : ℕ). drop j r.buf) idle

      delivered : f.cipher ≡ out
      delivered =
          f.sent ∙ ap (λ (x : Bytes). out ++ x) (ap (λ (j : ℕ). take j r.buf) idle) ∙ append-nil out

      loaded : Loaded total out (copied (chunk_size - length r.buf + 1) r)
      loaded =
          let n = chunk_size - length r.buf + 1 in
          record {
            k = f.k;
            plain = f.plain;
            chunks = subst (λ (x : Bytes). Chunks a f.k f.plain x) delivered f.chunks;
            left =
                f.left
                ∙ ap (λ (x : Bytes). f.plain ++ x ++ r.src.rest) unread
                ∙ ap (λ (x : Bytes). f.plain ++ r.buf ++ x) (sym (take-append-drop n r.src.rest))
                ∙ sym (append_assoc (f.plain ++ r.buf) _ _)
                ∙ ap (λ (x : Bytes). x ++ drop n r.src.rest) (append_assoc f.plain r.buf _);
            started = elim f.started [
              | inl first ↦ inl first
              | inr more ↦
                  inr
                    (omega (arith, more, ap length unread, length-append r.buf (take n r.src.rest)))
            ];
            nonce_of = f.nonce_of;
            same_aead = f.same_aead;
            clean = clean;
            small = omega (
              arith,
              Chunks-le_length a f.k f.plain f.cipher f.chunks,
              ap length f.left,
              length-append (f.plain ++ drop r.ready r.buf) r.src.rest,
              length-append f.plain (drop r.ready r.buf),
            );
          }

      seals :
          (length (copied (chunk_size - length r.buf + 1) r).buf ≡ chunk_size + 1)
            ⊎ ((length (copied (chunk_size - length r.buf + 1) r).buf ≤ chunk_size)
                × (drop (chunk_size - length r.buf + 1) r.src.rest ≡ []))
          → GoodFeed total out (
              if leb (length (copied (chunk_size - length r.buf + 1) r).buf) chunk_size
              then seal_last (copied (chunk_size - length r.buf + 1) r)
              else seal_chunk (copied (chunk_size - length r.buf + 1) r))
      seals (inl size) =
          let large : leb (length (copied (chunk_size - length r.buf + 1) r).buf) chunk_size
              ≡ false =
            ground (arith, size) in
          rw large (seal_chunk-GoodFeed total out _ laws loaded size idle)
      seals (inr (fits, gone)) =
          let small : leb (length (copied (chunk_size - length r.buf + 1) r).buf) chunk_size
              ≡ true =
            ground (arith, fits) in
          rw small (seal_last-GoodFeed total out _ loaded fits gone)

      copies :
          (o : Option StreamError)
          → copy_error (chunk_size - length r.buf + 1) r.src ≡ o
          → GoodFeed total out (elim o [
            | some e ↦ done (some e) (copied (chunk_size - length r.buf + 1) r)
            | none ↦
                if leb (length (copied (chunk_size - length r.buf + 1) r).buf) chunk_size
                then seal_last (copied (chunk_size - length r.buf + 1) r)
                else seal_chunk (copied (chunk_size - length r.buf + 1) r)
          ])
      copies (some e) h = (copy_error_inv _ r.src e h, idle)
      copies none h = seals (filled_or_gone r.buf r.src.rest _ short refl)
