-- ===== src/Stream/Writing.antt =====
-- EncryptWriter (stream/stream.go) writes a sealed message.
use darkbio_crypto_go.Base.{
  ◌+◌, ◌^◌, ◌<◌, ◌≡◌, refl, sym, ap, ap₂, ◌∙◌, subst, inl, Option, some, none, true, false, List,
  [], ◌∷◌, ◌++◌, append_assoc, append-nil, length, length-append, ◌==◌, arith,
}
use darkbio_crypto_go.Stream.Types.{
  Bytes, StreamError, closed, Run, done, panic, Aead, unless_failed-none,
}
use darkbio_crypto_go.Stream.Nonce.{
  Nonce, nonce_bytes, new_nonce, nonce_at, set_last_chunk_flag, inc_nonce, inc_nonce-last,
  new_nonce-nonce_at,
}
use darkbio_crypto_go.Stream.Writer.{EncryptWriter, flush_chunk, write, close}
use darkbio_crypto_go.Stream.Sealed.{Chunks, no_chunk, Sealed, sealed}
use darkbio_crypto_go.Stream.Filling.{Holding, few, write_loop-all}

abbrev pub concat : List Bytes → Bytes
concat [] = []
concat (p ∷ ps) = p ++ concat ps

module _ (a : Aead) {D : Type 0} (write_dst : D → Bytes → Option StreamError × D)
    (contents : D → Bytes)
    (accepts : (d : D) (b : Bytes)
      → ((write_dst d b).0 ≡ none) × (contents (write_dst d b).1 ≡ contents d ++ b)) where
  -- Write takes all of its bytes, without an error.
  pub write-Holding :
      (t p : Bytes) (w : EncryptWriter D)
      → Holding a write_dst contents accepts t w
      → length (t ++ p) < 2 ^ 80
      → (w' : EncryptWriter D) × (write write_dst p w ≡ done (length p, none) w')
        × Holding a write_dst contents accepts (t ++ p) w'
  unfolding write
  write-Holding t [] w h short = (
    w,
    unless_failed-none w.error _ _ h.going.no_error,
    subst (λ (x : Bytes). Holding a write_dst contents accepts x w) (sym (append-nil t)) h,
  )
  write-Holding t (b ∷ bs) w h short =
      let same : h.plain ++ w.buf ++ b ∷ bs ≡ t ++ b ∷ bs =
        ap (λ (x : Bytes). x ++ b ∷ bs) (sym h.parts) in
      let (w', run, holds) =
        write_loop-all a write_dst contents accepts h.k h.plain (b ∷ bs) w h.going h.room h.started
          (rw (sym (ap length same)) at short) (omega arith) in
      let some_bytes : (length (b ∷ bs) == 0) ≡ false = ground arith in
      (
        w',
        unless_failed-none w.error _ _ h.going.no_error ∙ rw (some_bytes, run) refl,
        subst (λ (x : Bytes). Holding a write_dst contents accepts x w') same holds,
      )

  -- Close seals what is left as the last chunk.
  pub close-Sealed :
      (t : Bytes) (w : EncryptWriter D)
      → Holding a write_dst contents accepts t w
      → length t < 2 ^ 80
      → (w' : EncryptWriter D) × (close write_dst w ≡ done none w')
        × Sealed a t (contents w'.dst)
        × (w'.error ≡ some closed)
  unfolding close
  close-Sealed t w h short =
      let small =
        few a write_dst contents accepts h.k h.plain w h.going
          (omega (arith, ap length h.parts, length-append h.plain w.buf)) in
      let counted =
        ap (λ (n : Nonce). inc_nonce (set_last_chunk_flag n)) h.going.nonce_of
        ∙ inc_nonce-last h.k small in
      let sent = w.aead.seal (nonce_bytes (set_last_chunk_flag w.nonce)) w.buf in
      let (none_, appended) = accepts w.dst sent in
      let sealed_as : sent ≡ a.seal (nonce_bytes (set_last_chunk_flag (nonce_at h.k))) w.buf =
        ap₂ (λ (x : Aead) (n : Nonce). x.seal (nonce_bytes (set_last_chunk_flag n)) w.buf)
          h.going.same_aead h.going.nonce_of in
      let out = appended ∙ ap (λ (s : Bytes). contents w.dst ++ s) sealed_as in
      let w1 : EncryptWriter D = record w {
        dst = (write_dst w.dst sent).1;
        buf = [];
        nonce = set_last_chunk_flag (nonce_at (h.k + 1));
      } in
      let flushed : flush_chunk write_dst true w ≡ done none w1 =
        unfold flush_chunk in rw (counted, none_) refl in
      (
        record w1 { error = some closed },
        unless_failed-none w.error _ _ h.going.no_error ∙ rw flushed refl,
        message out,
        refl,
      )
    where
      message :
          {out : Bytes}
          → out ≡ contents w.dst ++ a.seal (nonce_bytes (set_last_chunk_flag (nonce_at h.k))) w.buf
          → Sealed a t out
      message {out = out} e =
          subst (λ (x : Bytes). Sealed a x out) (sym h.parts)
            (subst (λ (c : Bytes). Sealed a (h.plain ++ w.buf) c) (sym e)
              (sealed w.buf h.going.chunks h.room h.started))

  -- A client: one Write for each piece, and Close.
  unfoldable pub write_all :
      List Bytes → EncryptWriter D → Run (EncryptWriter D) (Option StreamError)
  write_all [] w = close write_dst w
  write_all (p ∷ ps) w = elim (write write_dst p w) [
    | panic ↦ panic
    | done (n, some e) w' ↦ done (some e) w'
    | done (n, none) w' ↦ write_all ps w'
  ]

  write_all-Holding :
      (t : Bytes) (ps : List Bytes) (w : EncryptWriter D)
      → Holding a write_dst contents accepts t w
      → length (t ++ concat ps) < 2 ^ 80
      → (w' : EncryptWriter D) × (write_all ps w ≡ done none w')
        × Sealed a (t ++ concat ps) (contents w'.dst)
  unfolding write_all
  write_all-Holding t [] w h short =
      let (w', run, s, e) = close-Sealed t w h (rw (append-nil t) at short) in
      (w', run, subst (λ (x : Bytes). Sealed a x (contents w'.dst)) (sym (append-nil t)) s)
  write_all-Holding t (p ∷ ps) w h short =
      let same = append_assoc t p (concat ps) in
      let fits : length (t ++ p) < 2 ^ 80 =
        omega (arith, ap length same, length-append (t ++ p) (concat ps)) in
      let (w1, run, h1) = write-Holding t p w h fits in
      let (w', more, s) =
        write_all-Holding (t ++ p) ps w1 h1 (rw (sym (ap length same)) at short) in
      (w', rw (write_all, run) more, subst (λ (x : Bytes). Sealed a x (contents w'.dst)) same s)

  -- However a plaintext below 2 ^ 80 bytes is cut into Writes, an EncryptWriter on a writer that
  -- takes everything ends, after Close, without an error or a panic, and has written the sealed
  -- message of this plaintext.
  pub write_all-Sealed :
      (ps : List Bytes) (d : D)
      → contents d ≡ []
      → length (concat ps) < 2 ^ 80
      → (w' : EncryptWriter D) × (write_all ps
            (record { aead = a; dst = d; buf = []; nonce = new_nonce; error = none })
          ≡ done none w')
        × Sealed a (concat ps) (contents w'.dst)
  write_all-Sealed ps d empty short = write_all-Holding [] ps _ holding short
    where
      holding :
          Holding a write_dst contents accepts []
            (record { aead = a; dst = d; buf = []; nonce = new_nonce; error = none })
      holding = record {
        k = 0;
        plain = [];
        going = record {
          same_aead = refl;
          nonce_of = new_nonce-nonce_at;
          no_error = refl;
          chunks = subst (λ (c : Bytes). Chunks a 0 [] c) (sym empty) no_chunk;
        };
        parts = refl;
        room = omega arith;
        started = inl refl;
      }
