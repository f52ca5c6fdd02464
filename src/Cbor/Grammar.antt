-- ===== src/Cbor/Grammar.antt =====
-- verifyObject (cbor/cbor.go) accepts nothing but the encodings of valid items.
use darkbio_crypto_go.Base.{
  ℕ, zero, suc, ◌≤◌, ◌<◌, ◌≡◌, refl, ap, ap₂, ◌∙◌, Option, none, some, true, false, ◌||◌, ◌++◌, [],
  arith, append-nil, ◌==◌, if◌then◌else◌, ltb, compare, Bool-cases, inl, inr,
}
use darkbio_crypto_go.Base.Int.{ℤ, pos, negsuc, IsInt64}
use darkbio_crypto_go.Cbor.Types.{
  Bytes, IsU64, max_int64, integer_overflow, invalid_major_type, invalid_utf8, unsupported_type,
  invalid_map_key_order, max_depth_exceeded,
}
use darkbio_crypto_go.Cbor.Layout.{info_of, width_of, header}
use darkbio_crypto_go.Cbor.BigEndian.{be_bytes}
use darkbio_crypto_go.Cbor.Header.{decode_header_sound}
use darkbio_crypto_go.Cbor.Utf8
use darkbio_crypto_go.Cbor.Methods.{int_encoding}
use darkbio_crypto_go.Cbor.Item.{
  Item, Items, Pairs, uint, nint, bytes, text, array, map, bool, null, nil, cons, end, pair, count,
  count_pairs, encoding, encoding_items, encoding_pairs, Valid, ValidItems, ValidPairs, After,
  depth, depth_items, depth_pairs,
}
use darkbio_crypto_go.Cbor.Decoder.{M, ◌>>=◌, pure, throw, decode_header, decode_int, read_bytes}
use darkbio_crypto_go.Cbor.Cursor.{TakenBytes, Sound, read_bytes_sound}
use darkbio_crypto_go.Cbor.Soundness.{Sound-pure, Sound-throw, Sound-if, Sound-bind}
use darkbio_crypto_go.Cbor.Verify.{verify_object, verify_body, repeat, verify_pairs, follows, is_lt}
use darkbio_crypto_go.Cbor.Accepts.{IsKey}
use darkbio_crypto_go.Cbor.KeyOrder.{rank, map_key_cmp-rank}

-- `enc` encodes a valid item, the items of an array, or the pairs of a map, of limited depth.
abbrev IsItem : ℕ → Unit {0} → Bytes → Type 0
IsItem n _ enc = (x : Item) × Valid x × (depth x ≤ n) × (enc ≡ encoding x)

abbrev AreItems : ℕ → ℕ → Unit {0} → Bytes → Type 0
AreItems n k _ enc =
    (xs : Items) × (count xs ≡ k) × ValidItems xs × (depth_items xs ≤ n) × (enc ≡ encoding_items xs)

abbrev ArePairs : ℕ → ℕ → Option ℤ → Unit {0} → Bytes → Type 0
ArePairs n k prev _ enc =
    (ps : Pairs) × (count_pairs ps ≡ k)
    × ValidPairs ps prev
    × (depth_pairs ps ≤ n)
    × (enc ≡ encoding_pairs ps)

abbrev Headed : ℕ × ℕ → Bytes → Type 0
Headed (m, v) enc = (m < 8) × IsU64 v × (enc ≡ header m v)

abbrev IntRead : ℤ → Bytes → Type 0
IntRead k enc = IsInt64 k × (enc ≡ int_encoding k)

decode_int_sound : Sound decode_int IntRead
unfolding decode_int
decode_int_sound =
    Sound-bind Headed IntRead decode_header _ decode_header_sound λ (m, v) xs (hm, hv, e).
      let Q = λ (k : ℤ) (ys : Bytes). IntRead k (xs ++ ys) in
      Sound-if Q (m == 0) _ _
        (λ zero_.
          Sound-if Q (ltb max_int64 v) _ _ (λ _. Sound-throw Q integer_overflow)
            (λ small.
              Sound-pure Q (pos v)
                (ground arith, append-nil xs ∙ e ∙ ap (λ (k : ℕ). header k v) (ground arith))))
        (λ _.
          Sound-if Q (m == 1) _ _
            (λ one.
              Sound-if Q (ltb max_int64 v) _ _ (λ _. Sound-throw Q integer_overflow)
                (λ small.
                  Sound-pure Q (negsuc v)
                    (ground arith, append-nil xs ∙ e ∙ ap (λ (k : ℕ). header k v) (ground arith))))
            (λ _. Sound-throw Q invalid_major_type))

After-follows :
    (prev : Option ℤ) (k : ℤ) → IsKey prev → IsInt64 k → follows prev k ≡ true → After prev k
After-follows none k hp hk a = tt
After-follows (some p) k hp hk a =
    let ranked : is_lt (compare (rank p) (rank k)) ≡ true = rw (map_key_cmp-rank p k hp hk) at a in
    ground arith

module _ (n : ℕ) (inner : M (Unit {0})) (sound : Sound inner (IsItem n)) where
  repeat_sound : (k : ℕ) → Sound (repeat k inner) (AreItems n k)
  unfolding repeat encoding
  repeat_sound zero = Sound-pure (AreItems n 0) tt (nil, refl, tt, omega arith, refl)
  repeat_sound (suc k) =
      Sound-bind (IsItem n) (AreItems n (suc k)) inner (λ _. repeat k inner) sound
        λ _ xs (x, v, h, e) d d' b valid r.
          let (ys, (rest, len, vs, hs, es), c) = repeat_sound k d d' b valid r in
          (
            ys,
            (cons x rest, ap suc len, (v, vs), omega arith, ap₂ (λ (a b : Bytes). a ++ b) e es),
            c,
          )

  pairs_sound :
      (k : ℕ) (prev : Option ℤ) → IsKey prev → Sound (verify_pairs k prev inner) (ArePairs n k prev)
  unfolding verify_pairs encoding
  pairs_sound zero prev hp = Sound-pure (ArePairs n 0 prev) tt (end, refl, tt, omega arith, refl)
  pairs_sound (suc k) prev hp =
      Sound-bind IntRead (ArePairs n (suc k) prev) decode_int _ decode_int_sound λ key xs (hk, ek).
        let Q = λ (u : Unit {0}) (ys : Bytes). ArePairs n (suc k) prev u (xs ++ ys) in
        Sound-if Q (follows prev key) _ _
          (λ after.
            Sound-bind (IsItem n) Q inner (λ _. verify_pairs k (some key) inner) sound
              λ _ ys (x, v, h, e) d d' b valid r.
                let (zs, (rest, len, vs, hs, es), c) = pairs_sound k (some key) hk d d' b valid r in
                (
                  zs,
                  (
                    pair key x rest,
                    ap suc len,
                    (hk, After-follows prev key hp hk after, v, vs),
                    omega arith,
                    rw (ek, e, es),
                  ),
                  c,
                ))
          (λ _. Sound-throw Q invalid_map_key_order)

-- What stands behind a header with the major type `m` and the value `v`.
module _ (n : ℕ) (inner : M (Unit {0})) (sound : Sound inner (IsItem n)) (m v : ℕ) (xs : Bytes)
    (headed : Headed (m, v) xs) where
  abbrev Completes : Unit {0} → Bytes → Type 0
  Completes u ys = IsItem (suc n) u (xs ++ ys)

  head_eq : (k : ℕ) → (m == k) ≡ true → xs ≡ header k v
  head_eq k t = headed.2 ∙ ap (λ (j : ℕ). header j v) (ground arith)

  integer_sound : (m == 0 || m == 1) ≡ true → Sound (pure tt) Completes
  unfolding encoding
  integer_sound t = elim (Bool-cases (m == 0)) [
    | inl z ↦ Sound-pure Completes tt (uint v, headed.1, omega arith, append-nil xs ∙ head_eq 0 z)
    | inr nz ↦
        Sound-pure Completes tt
          (nint v, headed.1, omega arith, append-nil xs ∙ head_eq 1 (ground arith))
  ]

  bytes_sound : (m == 2) ≡ true → Sound (read_bytes v >>= λ _. pure tt) Completes
  unfolding encoding
  bytes_sound t =
      Sound-bind (TakenBytes v) Completes (read_bytes v) _ (read_bytes_sound v)
        λ _ ys (same, len, small, hb).
          Sound-pure (λ u zs. Completes u (ys ++ zs)) tt
            (bytes ys, (hb, rw len small), omega arith, rw (append-nil, head_eq 2 t, len))

  text_sound :
      (m == 3) ≡ true
      → Sound
          (read_bytes v >>= λ bytes. if Utf8.valid bytes then pure tt else throw invalid_utf8)
          Completes
  unfolding encoding
  text_sound t =
      Sound-bind (TakenBytes v) Completes (read_bytes v) _ (read_bytes_sound v)
        λ read ys (same, len, small, hb).
          let Q = λ (u : Unit {0}) (zs : Bytes). Completes u (ys ++ zs) in
          Sound-if Q (Utf8.valid read) _ _
            (λ utf8. Sound-pure Q tt (
              text ys,
              (hb, rw len small, rw same at utf8),
              omega arith,
              rw (append-nil, head_eq 3 t, len),
            ))
            (λ _. Sound-throw Q invalid_utf8)

  simple_eq : (k : ℕ) → (m == 7) ≡ true → (v == k) ≡ true → xs ++ [] ≡ header 7 k
  simple_eq k t e = append-nil xs ∙ head_eq 7 t ∙ ap (header 7) (ground arith)

  simple_sound :
      (m == 7) ≡ true → (v == 20 || v == 21 || v == 22) ≡ true → Sound (pure tt) Completes
  unfolding encoding header info_of width_of be_bytes
  simple_sound t s = elim (Bool-cases (v == 20)) [
    | inl e ↦ Sound-pure Completes tt (bool false, tt, omega arith, simple_eq 20 t e)
    | inr n20 ↦ elim (Bool-cases (v == 21)) [
      | inl e ↦ Sound-pure Completes tt (bool true, tt, omega arith, simple_eq 21 t e)
      | inr n21 ↦ Sound-pure Completes tt (null, tt, omega arith, simple_eq 22 t (ground arith))
    ]
  ]

  verify_body_sound : Sound (verify_body inner m v) Completes
  unfolding verify_body encoding
  verify_body_sound = Sound-if Completes (m == 0 || m == 1) _ _ integer_sound λ _.
      Sound-if Completes (m == 2) _ _ bytes_sound λ _.
        Sound-if Completes (m == 3) _ _ text_sound λ _.
          Sound-if Completes (m == 4) _ _
            (λ t d d' u valid h.
              let (ys, (items, len, vs, hs, e), c) = repeat_sound n inner sound v d d' u valid h in
              (ys, (array items, (rw len headed.1, vs), omega arith, rw (head_eq 4 t, e, len)), c))
            λ _.
              Sound-if Completes (m == 5) _ _
                (λ t d d' u valid h.
                  let (ys, (ps, len, vs, hs, e), c) =
                    pairs_sound n inner sound v none tt d d' u valid h in
                  (ys, (map ps, (rw len headed.1, vs), omega arith, rw (head_eq 5 t, e, len)), c))
                λ _.
                  Sound-if Completes (m == 7) _ _
                    (λ t.
                      Sound-if Completes (v == 20 || v == 21 || v == 22) _ _ (simple_sound t)
                        (λ _. Sound-throw Completes unsupported_type))
                    (λ _. Sound-throw Completes unsupported_type)

pub verify_object_sound : (n : ℕ) → Sound (verify_object n) (IsItem n)
unfolding verify_object
verify_object_sound zero = Sound-throw (IsItem 0) max_depth_exceeded
verify_object_sound (suc n) =
    Sound-bind Headed (IsItem (suc n)) decode_header _ decode_header_sound λ (m, v) xs headed.
      verify_body_sound n (verify_object n) (verify_object_sound n) m v xs headed
