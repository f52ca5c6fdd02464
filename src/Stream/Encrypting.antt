-- ===== src/Stream/Encrypting.antt =====
-- EncryptReader (stream/stream.go) delivers the sealed message of what it reads.
use darkbio_crypto_go.Base.{
  ℕ, ◌^◌, ◌<◌, ◌≡◌, ◌≢◌, refl, sym, ap, ◌∙◌, subst, inl, inr, Option, some, none, false, [], ◌++◌,
  append-nil, length, take, ltb, ◌==◌, Bool-cases, if◌then◌else◌, arith,
}
use darkbio_crypto_go.Stream.Types.{
  Bytes, StreamError, eof, Run, done, panic, Aead, AeadLaws, unless_failed,
}
use darkbio_crypto_go.Stream.Nonce.{new_nonce, new_nonce-nonce_at}
use darkbio_crypto_go.Stream.Reader.{Source, value, error}
use darkbio_crypto_go.Stream.EncryptReader.{
  EncryptReader, feed_buffer, hand_out, after_feed, read_encrypted,
}
use darkbio_crypto_go.Stream.Sealed.{Sealed, no_chunk}
use darkbio_crypto_go.Stream.Feeding.{
  Feeds, feeding, finished, broken, GoodRead, GoodFeed, hand_out-Feeding, hand_out-Finished,
  feed_buffer-GoodFeed,
}

module _ (a : Aead) (laws : AeadLaws a) where
  after_feed-GoodRead :
      (total out : Bytes) (n : ℕ) (run : Run EncryptReader (Option StreamError))
      → GoodFeed a total out run
      → GoodRead a total out (after_feed n run)
  unfolding after_feed
  after_feed-GoodRead total out n panic g = g
  after_feed-GoodRead total out n (done (some e) r) (not_eof, idle) =
      ((λ (q : e ≡ eof). absurd (not_eof q)), broken e refl not_eof idle)
  after_feed-GoodRead total out n (done none r) (inl (clean, f)) =
      hand_out-Feeding a total out n r clean f
  after_feed-GoodRead total out n (done none r) (inr f) = hand_out-Finished a total out n r f

  none_ready : (n : ℕ) → ltb 0 n ≡ false → n ≡ 0
  none_ready n h = ground arith

  hand_out-GoodRead :
      (total out : Bytes) (n : ℕ) (r : EncryptReader)
      → Feeds a total out r
      → 0 < r.ready
      → GoodRead a total out (hand_out n r)
  hand_out-GoodRead total out n r (feeding clean f) some_ = hand_out-Feeding a total out n r clean f
  hand_out-GoodRead total out n r (finished f) some_ = hand_out-Finished a total out n r f
  hand_out-GoodRead total out n r (broken e h not_eof idle) some_ = absurd (omega arith)

  -- Where nothing is ready and no error is kept.
  feed_next :
      (total out : Bytes) (n : ℕ) (r : EncryptReader)
      → length total < 2 ^ 80
      → Feeds a total out r
      → r.ready ≡ 0
      → r.failure ≡ none
      → GoodRead a total out (if n == 0 then done (value []) r else after_feed n (feed_buffer r))
  feed_next total out n r few (feeding clean f) idle h = elim (Bool-cases (n == 0)) [
    | inl no_bytes ↦
        rw no_bytes
          (subst (λ (x : Bytes). Feeds a total x r) (sym (append-nil out)) (feeding clean f))
    | inr some_ ↦ rw some_ (
        after_feed-GoodRead total out n (feed_buffer r)
          (feed_buffer-GoodFeed a total out r laws few clean f idle))
  ]
  feed_next total out n r few (finished f) idle h =
      let clash : none ≡ some eof = sym h ∙ f.failed in absurd (cc)
  feed_next total out n r few (broken e is_e not_eof i) idle h =
      let clash : none ≡ some e = sym h ∙ is_e in absurd (cc)

  kept_failure :
      (total out : Bytes) (r : EncryptReader) (e : StreamError)
      → Feeds a total out r
      → r.ready ≡ 0
      → r.failure ≡ some e
      → e ≡ eof
      → Sealed a total out
  kept_failure total out r e (feeding clean f) idle h end =
      let clash : none ≡ some e = sym clean ∙ h in absurd (cc)
  kept_failure total out r e (finished f) idle h end =
      subst (Sealed a total)
        (f.sent ∙ ap (λ (x : Bytes). out ++ x) (ap (λ (j : ℕ). take j r.buf) idle) ∙ append-nil out)
        f.message
  kept_failure total out r e (broken x is_x not_eof i) idle h end =
      let same : some x ≡ some e = sym is_x ∙ h in absurd (not_eof (cc))

  read_encrypted-GoodRead :
      (total out : Bytes) (n : ℕ) (r : EncryptReader)
      → length total < 2 ^ 80
      → Feeds a total out r
      → GoodRead a total out (read_encrypted n r)
  unfolding read_encrypted
  read_encrypted-GoodRead total out n r few h = elim (Bool-cases (ltb 0 r.ready)) [
    | inl some_ ↦ rw some_ (hand_out-GoodRead total out n r h (ground arith))
    | inr none_ ↦ rw none_ (asks (none_ready r.ready none_) r.failure refl)
  ]
    where
      asks :
          r.ready ≡ 0
          → (o : Option StreamError) → r.failure ≡ o
          → GoodRead a total out (
              unless_failed o
                (λ e. done (error e) r)
                (if n == 0 then done (value []) r else after_feed n (feed_buffer r)))
      asks idle none e = feed_next total out n r few h idle e
      asks idle (some x) e = (kept_failure total out r x h idle e, h)

  -- An EncryptReader after any Reads of a client, and what they have delivered.
  pub data Encryption (src : Source) : Bytes → EncryptReader → Type 0 where
    started :
        Encryption src []
          (record { aead = a; src = src; ready = 0; buf = []; nonce = new_nonce; failure = none })
    handed :
        {out b : Bytes} {r r' : EncryptReader} (n : ℕ)
        → Encryption src out r
        → read_encrypted n r ≡ done (value b) r'
        → Encryption src (out ++ b) r'
    refused :
        {out : Bytes} {e : StreamError} {r r' : EncryptReader} (n : ℕ)
        → Encryption src out r
        → read_encrypted n r ≡ done (error e) r'
        → Encryption src out r'

  Encryption-Feeds :
      (src : Source) (out : Bytes) (r : EncryptReader)
      → length src.rest < 2 ^ 80
      → Encryption src out r
      → Feeds a src.rest out r
  Encryption-Feeds src out r few started = feeding refl (record {
    k = 0;
    plain = [];
    cipher = [];
    chunks = no_chunk;
    sent = refl;
    left = refl;
    within = omega arith;
    ahead = omega arith;
    started = inl refl;
    nonce_of = new_nonce-nonce_at;
    same_aead = refl;
  })
  Encryption-Feeds src out r few (handed {out = o} {r = q} n s run) =
      subst (GoodRead a src.rest o) run
        (read_encrypted-GoodRead src.rest o n q few (Encryption-Feeds src o q few s))
  Encryption-Feeds src out r few (refused {out = o} {r = q} n s run) =
      (subst (GoodRead a src.rest o) run
        (read_encrypted-GoodRead src.rest o n q few (Encryption-Feeds src o q few s))).1

  -- In whatever sizes a client reads an EncryptReader of a plaintext below 2 ^ 80 bytes, Read does
  -- not panic, and if it returns io.EOF, then the bytes delivered before are the sealed message of
  -- the plaintext.
  pub read_encrypted-Sealed :
      (src : Source) (out : Bytes) (r : EncryptReader) (n : ℕ)
      → length src.rest < 2 ^ 80
      → Encryption src out r
      → (read_encrypted n r ≢ panic)
        × ((r' : EncryptReader) → read_encrypted n r ≡ done (error eof) r' → Sealed a src.rest out)
  read_encrypted-Sealed src out r n few s =
      let good = read_encrypted-GoodRead src.rest out n r few (Encryption-Feeds src out r few s) in
      (
        λ crash. subst (GoodRead a src.rest out) crash good,
        λ r' end. (subst (GoodRead a src.rest out) end good).0 refl,
      )
