-- ===== src/Stream/Opening.antt =====
-- readChunk of a DecryptReader (stream/stream.go): a chunk that opens is the next one of the message.
use darkbio_crypto_go.Base.{
  ℕ, suc, ◌+◌, ◌^◌, ◌≤◌, ◌<◌, ◌≡◌, ◌≢◌, refl, sym, ap, ◌∙◌, subst, ◌⊎◌, inl, inr, Option, some,
  none, Bool, true, false, ◌&&◌, not, [], ◌∷◌, ◌++◌, append_assoc, append-nil, length,
  length-append, length-take_le, take, take-append-drop, leb, ◌==◌, Bool-cases, arith,
}
use darkbio_crypto_go.Stream.Types.{
  Bytes, StreamError, eof, unexpected_eof, trailing_data, empty_last_chunk, corrupted, closed,
  source, invalid_key, invalid_size, Run, done, panic, Aead, AeadLaws, chunk_size_pos,
  enc_chunk_size, overhead,
}
use darkbio_crypto_go.Stream.Nonce.{
  Nonce, nonce_bytes, nonce_at, set_last_chunk_flag, nonce_is_zero, nonce_is_zero-nonce_at,
  inc_nonce, inc_nonce-nonce_at, inc_nonce-last,
}
use darkbio_crypto_go.Stream.Reader.{
  short, filled_part, read_full, DecryptReader, Outcome, value, error, accept_chunk, open_last,
  open_full, open_chunk, read_chunk,
}
use darkbio_crypto_go.Stream.Sealed.{Chunks, chunk, Sealed, sealed}
use darkbio_crypto_go.Stream.Progress.{Open, Chunks-le_cipher}

module _ (a : Aead) where
  -- The last chunk is open.
  pub record AtLast (cipher out : Bytes) (r : DecryptReader) : Type 0 where
    pub plain : Bytes
    pub opened : Bytes
    pub message : Sealed a plain opened
    pub delivered : plain ≡ out ++ r.unread
    pub read_so_far : cipher ≡ opened ++ r.src.rest

  abbrev pub GoodChunk : Bytes → Bytes → Run DecryptReader (Outcome Bool) → Type 0
  GoodChunk cipher out panic = ⊥
  GoodChunk cipher out (done (value false) r) = (r.aead ≡ a) × Open a cipher out r
  GoodChunk cipher out (done (value true) r) = AtLast cipher out r
  GoodChunk cipher out (done (error e) r) = (e ≢ eof) × (r.unread ≡ [])

module _ (a : Aead) (laws : AeadLaws a) where
  -- Just read from the source: `in_` comes next and is not opened yet.
  record Ready (cipher out in_ : Bytes) (r : DecryptReader) : Type 0 where
    k : ℕ
    opened : Bytes
    chunks : Chunks a k out opened
    read_so_far : cipher ≡ opened ++ in_ ++ r.src.rest
    nonce_of : r.nonce ≡ nonce_at k
    no_error : r.error ≡ none
    same_aead : r.aead ≡ a
    nothing : r.unread ≡ []
    small : k + 1 < 256 ^ 11

  seal_of : (x : Aead) (n c p : Bytes) → x ≡ a → x.open_ n c ≡ some p → c ≡ a.seal n p
  seal_of x n c p s e = laws.seal_open n c p (sym (ap (λ (y : Aead). y.open_ n c) s) ∙ e)

  length_of : (n c p : Bytes) → c ≡ a.seal n p → length c ≡ length p + overhead
  length_of n c p e = ap length e ∙ laws.length_seal n p

  open_last-GoodChunk :
      (cipher out in_ : Bytes) (r : DecryptReader) (h : Ready cipher out in_ r)
      → length in_ ≤ enc_chunk_size
      → (h.k ≡ 0) ⊎ (length in_ ≢ overhead)
      → GoodChunk a cipher out (open_last in_ r)
  unfolding open_last
  open_last-GoodChunk cipher out in_ r h fits first = opens _ refl
    where
      counts :
          (p : Bytes) (o : Option Nonce)
          → inc_nonce (set_last_chunk_flag r.nonce) ≡ o
          → in_ ≡ a.seal (nonce_bytes (set_last_chunk_flag (nonce_at h.k))) p
          → GoodChunk a cipher out (elim o [
            | none ↦ panic
            | some n' ↦ done (value true) (record r { nonce = n'; unread = p })
          ])
      counts p none counted e =
          let clash : none ≡ some _ =
            sym counted
            ∙ ap (λ (n : Nonce). inc_nonce (set_last_chunk_flag n)) h.nonce_of
            ∙ inc_nonce-last h.k h.small in
          absurd (cc)
      counts p (some n') counted e =
          let len = length_of _ in_ p e in
          record {
            plain = out ++ p;
            opened = h.opened ++ in_;
            message =
                subst (λ (c : Bytes). Sealed a (out ++ p) (h.opened ++ c)) (sym e)
                  (sealed p h.chunks (omega (arith, len, fits)) (elim first [
                    | inl zero_ ↦ inl zero_
                    | inr other ↦ inr (omega (arith, len, other))
                  ]));
            delivered = refl;
            read_so_far = h.read_so_far;
          }

      opens :
          (o : Option Bytes)
          → r.aead.open_ (nonce_bytes (set_last_chunk_flag r.nonce)) in_ ≡ o
          → GoodChunk a cipher out (elim o [
            | none ↦ done (error corrupted) (record r { nonce = set_last_chunk_flag r.nonce })
            | some p ↦ accept_chunk true (set_last_chunk_flag r.nonce) p r
          ])
      opens none e = ((λ (q : corrupted ≡ eof). cc), h.nothing)
      opens (some p) e =
          unfold accept_chunk in
          counts p (inc_nonce (set_last_chunk_flag r.nonce)) refl (
            seal_of r.aead _ in_ p h.same_aead (
              ap (λ (n : Nonce). r.aead.open_ (nonce_bytes (set_last_chunk_flag n)) in_)
                (sym h.nonce_of)
              ∙ e))

  open_full-GoodChunk :
      (cipher out in_ : Bytes) (r : DecryptReader)
      → Ready cipher out in_ r
      → length in_ ≡ enc_chunk_size
      → GoodChunk a cipher out (open_full in_ r)
  unfolding open_full accept_chunk
  open_full-GoodChunk cipher out in_ r h fits = opens _ refl
    where
      next :
          (p : Bytes)
          → in_ ≡ a.seal (nonce_bytes (nonce_at h.k)) p
          → Open a cipher out (record r { nonce = nonce_at (h.k + 1); unread = p })
      next p e =
          let len = length_of _ in_ p e in
          record {
            k = suc h.k;
            plain = out ++ p;
            opened = h.opened ++ in_;
            chunks =
                subst (λ (c : Bytes). Chunks a (suc h.k) (out ++ p) (h.opened ++ c)) (sym e)
                  (chunk p h.chunks (omega (arith, len, fits)));
            read_so_far = h.read_so_far;
            delivered = refl;
            nonce_of = ap nonce_at (omega arith);
            no_error = h.no_error;
          }

      opens :
          (o : Option Bytes)
          → r.aead.open_ (nonce_bytes r.nonce) in_ ≡ o
          → GoodChunk a cipher out
              (elim o [ some p ↦ accept_chunk false r.nonce p r | none ↦ open_last in_ r ])
      opens none e =
          open_last-GoodChunk cipher out in_ r h (omega (arith, fits))
            (inr (omega (arith, fits, chunk_size_pos)))
      opens (some p) e =
          let counted : inc_nonce r.nonce ≡ some (nonce_at (h.k + 1)) =
            ap inc_nonce h.nonce_of ∙ inc_nonce-nonce_at h.k h.small in
          let run : accept_chunk false r.nonce p r
              ≡ done (value false) (record r { nonce = nonce_at (h.k + 1); unread = p }) =
            rw (accept_chunk, counted) refl in
          subst (GoodChunk a cipher out) (sym run) (
            h.same_aead,
            next p (
                seal_of r.aead _ in_ p h.same_aead
                  (ap (λ (n : Nonce). r.aead.open_ (nonce_bytes n) in_) (sym h.nonce_of) ∙ e)),
          )

  start_or_longer :
      (k : ℕ) (n : Nonce) (in_ : Bytes)
      → n ≡ nonce_at k
      → k + 1 < 256 ^ 11
      → (not (nonce_is_zero n) && length in_ == overhead) ≡ false
      → (k ≡ 0) ⊎ (length in_ ≢ overhead)
  start_or_longer k n in_ e small test = elim (Bool-cases (nonce_is_zero n)) [
    | inl zero_ ↦ inl (nonce_is_zero-nonce_at k (omega arith) (rw e at zero_))
    | inr other ↦ inr (ground (arith, test, other))
  ]

  open_short-GoodChunk :
      (cipher out in_ : Bytes) (r : DecryptReader)
      → Ready cipher out in_ r
      → length in_ ≤ enc_chunk_size
      → GoodChunk a cipher out (open_chunk (short in_) r)
  unfolding open_chunk
  open_short-GoodChunk cipher out in_ r h fits =
      elim (Bool-cases (not (nonce_is_zero r.nonce) && length in_ == overhead)) [
        | inl empty ↦ rw empty ((λ (q : empty_last_chunk ≡ eof). cc), h.nothing)
        | inr other ↦ rw other (
            open_last-GoodChunk cipher out in_ r h fits
              (start_or_longer h.k r.nonce in_ h.nonce_of h.small other))
      ]

  -- The source before the read, and after it.
  ready :
      (cipher out in_ rest : Bytes) (r : DecryptReader)
      → r.aead ≡ a
      → Open a cipher out r
      → r.unread ≡ []
      → length cipher < 2 ^ 80
      → r.src.rest ≡ in_ ++ rest
      → Ready cipher out in_ (record r { src = record { rest = rest; ending = r.src.ending } })
  ready cipher out in_ rest r s o nothing few split = record {
    k = o.k;
    opened = o.opened;
    chunks = subst (λ (p : Bytes). Chunks a o.k p o.opened) plain_is o.chunks;
    read_so_far =
        o.read_so_far
        ∙ ap (λ (x : Bytes). o.opened ++ x) split
        ∙ sym (append_assoc o.opened in_ rest);
    nonce_of = o.nonce_of;
    no_error = o.no_error;
    same_aead = s;
    nothing = nothing;
    small = omega (
      arith,
      Chunks-le_cipher a laws o.k o.plain o.opened o.chunks,
      ap length o.read_so_far,
      length-append o.opened r.src.rest,
    );
  }
    where
      plain_is : o.plain ≡ out
      plain_is = o.delivered ∙ ap (λ (x : Bytes). out ++ x) nothing ∙ append-nil out

  part-GoodChunk :
      (cipher out part : Bytes) (ending : StreamError) (r : DecryptReader)
      → Ready cipher out part r
      → length part ≤ enc_chunk_size
      → GoodChunk a cipher out (open_chunk (filled_part ending part) r)
  unfolding open_chunk
  part-GoodChunk cipher out [] eof r h fits = ((λ (q : unexpected_eof ≡ eof). cc), h.nothing)
  part-GoodChunk cipher out (b ∷ bs) eof r h fits =
      open_short-GoodChunk cipher out (b ∷ bs) r h fits
  part-GoodChunk cipher out part unexpected_eof r h fits =
      open_short-GoodChunk cipher out part r h fits
  part-GoodChunk cipher out part invalid_key r h fits = ((λ (q : invalid_key ≡ eof). cc), h.nothing)
  part-GoodChunk cipher out part invalid_size r h fits =
      ((λ (q : invalid_size ≡ eof). cc), h.nothing)
  part-GoodChunk cipher out part trailing_data r h fits =
      ((λ (q : trailing_data ≡ eof). cc), h.nothing)
  part-GoodChunk cipher out part empty_last_chunk r h fits =
      ((λ (q : empty_last_chunk ≡ eof). cc), h.nothing)
  part-GoodChunk cipher out part corrupted r h fits = ((λ (q : corrupted ≡ eof). cc), h.nothing)
  part-GoodChunk cipher out part closed r h fits = ((λ (q : closed ≡ eof). cc), h.nothing)
  part-GoodChunk cipher out part (source n) r h fits = ((λ (q : source n ≡ eof). cc), h.nothing)

  pub read_chunk-GoodChunk :
      (cipher out : Bytes) (r : DecryptReader)
      → r.aead ≡ a
      → Open a cipher out r
      → r.unread ≡ []
      → length cipher < 2 ^ 80
      → GoodChunk a cipher out (read_chunk r)
  unfolding read_chunk read_full
  read_chunk-GoodChunk cipher out r s o nothing few =
      let clean : (length r.unread == 0) ≡ true = ground (arith, ap length nothing) in
      elim (Bool-cases (leb enc_chunk_size (length r.src.rest))) [
        | inl enough ↦
            rw (clean, enough)
              (unfold open_chunk in
                open_full-GoodChunk cipher out (take enc_chunk_size r.src.rest) _
                  (ready cipher out _ _ r s o nothing few
                    (sym (take-append-drop enc_chunk_size r.src.rest)))
                  (length-take_le enc_chunk_size r.src.rest (ground arith)))
        | inr less ↦
            rw (clean, less)
              (part-GoodChunk cipher out r.src.rest r.src.ending _
                (ready cipher out _ _ r s o nothing few (sym (append-nil r.src.rest)))
                (ground arith))
      ]
