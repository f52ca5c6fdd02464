-- ===== src/Cbor/Canonical.antt =====
-- Verify (cbor/cbor.go) decides the strict subset of CBOR.
use darkbio_crypto_go.Base.{
  ◌≤◌, ◌≡◌, refl, sym, ap, ◌∙◌, ◌↔◌, [], ◌∷◌, ◌++◌, length, All, arith, append-nil, length-append,
}
use darkbio_crypto_go.Cbor.Types.{Bytes, IsByte, ok, err, max_depth}
use darkbio_crypto_go.Cbor.Item.{Item, encoding, Valid, depth}
use darkbio_crypto_go.Cbor.Decoder.{
  Decoder, M, Run, done, fail, ◌>>=◌, ◌>>◌, advance, new_decoder, finish,
}
use darkbio_crypto_go.Cbor.Cursor.{IsValid, Consumes, >>=-eq-done}
use darkbio_crypto_go.Cbor.Accepts.{verify_object_reads}
use darkbio_crypto_go.Cbor.Grammar.{verify_object_sound}
use darkbio_crypto_go.Cbor.Verify.{verify_object, verify}

empty_of_length : (rest : Bytes) → length rest ≡ 0 → rest ≡ []
empty_of_length [] h = refl
empty_of_length (b ∷ rest) h = absurd (omega arith)

-- A method that reads all of the data, followed by Finish.
pub whole_reads :
    (p : M (Unit {0})) (bs : Bytes)
    → p (new_decoder bs) ≡ done tt (advance (new_decoder bs) (length bs))
    → (p >> finish) (new_decoder bs) ≡ done tt (advance (new_decoder bs) (length bs))
unfolding finish
whole_reads p bs e = rw (e, ◌>>=◌) (ground arith)

pub whole_sound :
    (bs enc : Bytes) (d d' : Decoder)
    → Consumes (new_decoder bs) enc d
    → finish d ≡ done tt d'
    → bs ≡ enc
unfolding finish
whole_sound bs enc d d' c h =
    c.before.here ∙ ap (λ (l : Bytes). enc ++ l) (empty_of_length c.rest none_left) ∙ append-nil enc
  where
    at_end : d.cursor ≡ length d.data_
    at_end = ground arith

    none_left : length c.rest ≡ 0
    none_left = omega (
      arith,
      ap (λ (x : Decoder). x.cursor) c.moved,
      ap (λ (x : Decoder). length x.data_) c.moved,
      at_end,
      ap length c.before.here,
      length-append enc c.rest,
    )

verify_inv :
    (bs : Bytes)
    → verify bs ≡ ok tt
    → (d : Decoder) × ((verify_object max_depth >> finish) (new_decoder bs) ≡ done tt d)
unfolding verify
verify_inv bs h = go ((verify_object max_depth >> finish) (new_decoder bs)) h
  where
    go :
        (r : Run (Unit {0}))
        → elim r [ done a d ↦ ok a | fail e d ↦ err e ] ≡ ok tt
        → (d : Decoder) × (r ≡ done tt d)
    go (done a d) h = (d, refl)
    go (fail e d) h = cc

verify_complete :
    (bs : Bytes)
    → verify_object max_depth (new_decoder bs) ≡ done tt (advance (new_decoder bs) (length bs))
    → verify bs ≡ ok tt
unfolding verify
verify_complete bs e = rw (whole_reads (verify_object max_depth) bs e, verify)

pub verify-encoding : (x : Item) → Valid x → depth x ≤ max_depth → verify (encoding x) ≡ ok tt
verify-encoding x v h = verify_complete (encoding x) (
    verify_object_reads x max_depth v h (new_decoder (encoding x)) []
      (record { fits = omega arith; here = sym (append-nil (encoding x)) }))

-- Verify accepts a byte string exactly when it is the encoding of a valid item of the strict
-- subset that nests at most 32 deep: canonical integers and lengths, valid UTF-8, int64 map keys
-- in strictly ascending order, only false, true and null beside, and nothing behind the item.
pub verify_iff :
    (bs : Bytes)
    → All IsByte bs
    → (verify bs ≡ ok tt) ↔ ((x : Item) × Valid x × (depth x ≤ max_depth) × (bs ≡ encoding x))
verify_iff bs bytes = (accepted, complete)
  where
    start : IsValid (new_decoder bs)
    start = record { fits = omega arith; bytes = bytes }

    accepted : verify bs ≡ ok tt → (x : Item) × Valid x × (depth x ≤ max_depth) × (bs ≡ encoding x)
    accepted h =
        let (d', whole) = verify_inv bs h in
        let (u, d, e, end) =
          >>=-eq-done (verify_object max_depth) (λ _. finish) (new_decoder bs) d' tt whole in
        let (enc, (x, v, deep, same), c) =
          verify_object_sound max_depth (new_decoder bs) d u start e in
        (x, v, deep, whole_sound bs enc d d' c end ∙ same)

    complete :
        ((x : Item) × Valid x × (depth x ≤ max_depth) × (bs ≡ encoding x)) → verify bs ≡ ok tt
    complete (x, v, deep, same) = rw same (verify-encoding x v deep)
