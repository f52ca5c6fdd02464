-- ===== src/Stream/Reading.antt =====
-- DecryptReader (stream/stream.go) delivers the plaintext of sealed messages only.
use darkbio_crypto_go.Base.{
  ℕ, ◌^◌, ◌<◌, ◌≡◌, ◌≢◌, refl, sym, ap, ◌∙◌, subst, inl, inr, Option, some, none, Bool, true, false,
  [], ◌∷◌, ◌++◌, append-nil, length, take, ltb, ◌==◌, Bool-cases, if◌then◌else◌, arith,
}
use darkbio_crypto_go.Stream.Types.{
  Bytes, StreamError, eof, trailing_data, Run, done, panic, Aead, AeadLaws, unless_failed,
}
use darkbio_crypto_go.Stream.Nonce.{new_nonce, new_nonce-nonce_at}
use darkbio_crypto_go.Stream.Reader.{
  Source, DecryptReader, Outcome, value, error, read_chunk, check_end, after_read_chunk, read,
}
use darkbio_crypto_go.Stream.Sealed.{no_chunk, Sealed}
use darkbio_crypto_go.Stream.Progress.{
  Open, Ended, Reads, is_open, is_ended, is_failed, split_at, deliver-Open, deliver-Reads,
}
use darkbio_crypto_go.Stream.Opening.{AtLast, GoodChunk, read_chunk-GoodChunk}

module _ (a : Aead) (laws : AeadLaws a) where
  -- What a result of Read means to the client.
  abbrev pub GoodRead : Bytes → Bytes → Run DecryptReader (Outcome Bytes) → Type 0
  GoodRead cipher out panic = ⊥
  GoodRead cipher out (done (value b) r) = Reads a cipher (out ++ b) r
  GoodRead cipher out (done (error e) r) = (e ≡ eof → Sealed a out cipher) × Reads a cipher out r

  -- The one byte more that Read asks for tells whether the message was all there is.
  check_end-Ended :
      (cipher out : Bytes) (r : DecryptReader)
      → AtLast a cipher out r
      → Ended a cipher out (check_end r)
  unfolding check_end
  check_end-Ended cipher out r h = ends _ refl
    where
      ends :
          (rest : Bytes)
          → r.src.rest ≡ rest
          → Ended a cipher out (elim rest [
            | [] ↦ record r { error = some r.src.ending }
            | b ∷ bs ↦ record r {
              src = record { rest = bs; ending = r.src.ending };
              error = some trailing_data;
            }
          ])
      ends [] e = record {
        plain = h.plain;
        opened = h.opened;
        message = h.message;
        delivered = h.delivered;
        kept = r.src.ending;
        has_error = refl;
        whole = λ q. h.read_so_far ∙ ap (λ (x : Bytes). h.opened ++ x) e ∙ append-nil h.opened;
      }
      ends (b ∷ bs) e = record {
        plain = h.plain;
        opened = h.opened;
        message = h.message;
        delivered = h.delivered;
        kept = trailing_data;
        has_error = refl;
        whole = λ q. cc;
      }

  after_read_chunk-GoodRead :
      (cipher out : Bytes) (n : ℕ) (run : Run DecryptReader (Outcome Bool))
      → GoodChunk a cipher out run
      → GoodRead cipher out (after_read_chunk n run)
  unfolding after_read_chunk
  after_read_chunk-GoodRead cipher out n panic g = g
  after_read_chunk-GoodRead cipher out n (done (value false) r) (s, o) =
      is_open s (deliver-Open a cipher out n r o)
  after_read_chunk-GoodRead cipher out n (done (value true) r) g = is_ended (
      check_end-Ended cipher (out ++ take n r.unread) _ (record {
        plain = g.plain;
        opened = g.opened;
        message = g.message;
        delivered = g.delivered ∙ split_at out r.unread n;
        read_so_far = g.read_so_far;
      }))
  after_read_chunk-GoodRead cipher out n (done (error e) r) (not_eof, nothing) = (
    (λ (q : e ≡ eof). absurd (not_eof q)),
    is_failed (record { kept = e; has_error = refl; not_eof = not_eof; nothing = nothing }),
  )

  no_bytes_left : (u : Bytes) → ltb 0 (length u) ≡ false → u ≡ []
  no_bytes_left [] h = refl
  no_bytes_left (b ∷ bs) h = absurd (ground arith)

  kept_error :
      (cipher out : Bytes) (r : DecryptReader) (e : StreamError)
      → Reads a cipher out r
      → r.unread ≡ []
      → r.error ≡ some e
      → e ≡ eof
      → Sealed a out cipher
  kept_error cipher out r e (is_open s o) nothing is_e end =
      let clash : none ≡ some e = sym o.no_error ∙ is_e in absurd (cc)
  kept_error cipher out r e (is_ended h) nothing is_e end =
      let same : some h.kept ≡ some e = sym h.has_error ∙ is_e in
      let all : h.plain ≡ out =
        h.delivered ∙ ap (λ (x : Bytes). out ++ x) nothing ∙ append-nil out in
      subst (λ (p : Bytes). Sealed a p cipher) all
        (subst (Sealed a h.plain) (sym (h.whole (cc))) h.message)
  kept_error cipher out r e (is_failed h) nothing is_e end =
      let same : some h.kept ≡ some e = sym h.has_error ∙ is_e in absurd (h.not_eof (cc))

  -- Where nothing is left to deliver.
  read_next :
      (cipher out : Bytes) (n : ℕ) (r : DecryptReader)
      → length cipher < 2 ^ 80
      → Reads a cipher out r
      → r.unread ≡ []
      → r.error ≡ none
      → GoodRead cipher out
          (if n == 0 then done (value []) r else after_read_chunk n (read_chunk r))
  read_next cipher out n r few (is_open s o) nothing no_error = elim (Bool-cases (n == 0)) [
    | inl no_bytes ↦
        rw no_bytes (is_open s (subst (λ (x : Bytes). Open a cipher x r) (sym (append-nil out)) o))
    | inr some_ ↦ rw some_ (
        after_read_chunk-GoodRead cipher out n (read_chunk r)
          (read_chunk-GoodChunk a laws cipher out r s o nothing few))
  ]
  read_next cipher out n r few (is_ended h) nothing no_error =
      let clash : none ≡ some h.kept = sym no_error ∙ h.has_error in absurd (cc)
  read_next cipher out n r few (is_failed h) nothing no_error =
      let clash : none ≡ some h.kept = sym no_error ∙ h.has_error in absurd (cc)

  read-GoodRead :
      (cipher out : Bytes) (n : ℕ) (r : DecryptReader)
      → length cipher < 2 ^ 80
      → Reads a cipher out r
      → GoodRead cipher out (read n r)
  unfolding read
  read-GoodRead cipher out n r few h = elim (Bool-cases (ltb 0 (length r.unread))) [
    | inl more ↦ rw more (deliver-Reads a cipher out n r h (ground arith))
    | inr none_ ↦ rw none_ (asks (no_bytes_left r.unread none_) r.error refl)
  ]
    where
      asks :
          r.unread ≡ []
          → (o : Option StreamError) → r.error ≡ o
          → GoodRead cipher out (
              unless_failed o
                (λ e. done (error e) r)
                (if n == 0 then done (value []) r else after_read_chunk n (read_chunk r)))
      asks nothing none e = read_next cipher out n r few h nothing e
      asks nothing (some x) e = (kept_error cipher out r x h nothing e, h)

  -- A DecryptReader after any Reads of a client, and what they have delivered.
  pub data Session (src : Source) : Bytes → DecryptReader → Type 0 where
    opened :
        Session src []
          (record { aead = a; src = src; unread = []; nonce = new_nonce; error = none })
    delivered :
        {out b : Bytes} {r r' : DecryptReader} (n : ℕ)
        → Session src out r
        → read n r ≡ done (value b) r'
        → Session src (out ++ b) r'
    refused :
        {out : Bytes} {e : StreamError} {r r' : DecryptReader} (n : ℕ)
        → Session src out r
        → read n r ≡ done (error e) r'
        → Session src out r'

  Session-Reads :
      (src : Source) (out : Bytes) (r : DecryptReader)
      → length src.rest < 2 ^ 80
      → Session src out r
      → Reads a src.rest out r
  Session-Reads src out r few opened = is_open refl (record {
    k = 0;
    plain = [];
    opened = [];
    chunks = no_chunk;
    read_so_far = refl;
    delivered = refl;
    nonce_of = new_nonce-nonce_at;
    no_error = refl;
  })
  Session-Reads src out r few (delivered {out = o} {r = q} n s run) =
      subst (GoodRead src.rest o) run
        (read-GoodRead src.rest o n q few (Session-Reads src o q few s))
  Session-Reads src out r few (refused {out = o} {r = q} n s run) =
      (subst (GoodRead src.rest o) run
        (read-GoodRead src.rest o n q few (Session-Reads src o q few s))).1

  pub read-Sealed :
      (src : Source) (out : Bytes) (r : DecryptReader) (n : ℕ)
      → length src.rest < 2 ^ 80
      → Session src out r
      → (read n r ≢ panic)
        × ((r' : DecryptReader) → read n r ≡ done (error eof) r' → Sealed a out src.rest)
  read-Sealed src out r n few s =
      let good = read-GoodRead src.rest out n r few (Session-Reads src out r few s) in
      (
        λ crash. subst (GoodRead src.rest out) crash good,
        λ r' end. (subst (GoodRead src.rest out) end good).0 refl,
      )
