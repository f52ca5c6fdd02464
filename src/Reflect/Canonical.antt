-- ===== src/Reflect/Canonical.antt =====
-- Marshal (cbor/reflect.go) writes canonical CBOR.
use darkbio_crypto_go.Base.{
  ℕ, suc, ◌≤◌, ◌^◌, ◌≡◌, refl, sym, ap, ◌∙◌, subst, Option, none, some, Bool, List, [], ◌∷◌, ◌++◌,
  length, inl, inr, Bool-cases, arith, append_assoc, append-nil, if◌then◌else◌,
}
use darkbio_crypto_go.Base.Int.{ℤ, pos}
use darkbio_crypto_go.Cbor.Types.{Bytes, IsLength, ok, err, unsupported_type, and_then-eq-ok}
use darkbio_crypto_go.Cbor.Layout.{header, encode_length-header}
use darkbio_crypto_go.Cbor.Encoder.{Encoder, encode_int, encode_array_header, encode_map_header}
use darkbio_crypto_go.Cbor.Methods.{int_encoding, encode_int_appends}
use darkbio_crypto_go.Cbor.Item.{
  Item, Items, Pairs, array, map, nil, cons, end, pair, count, count_pairs, encoding,
  encoding_items, encoding_pairs, Valid, ValidItems, ValidPairs, depth, depth_items, depth_pairs,
}
use darkbio_crypto_go.Reflect.Tags.{
  Entry, Keyed, Placed, has_exported, array_fields, map_fields, sort_fields,
}
use darkbio_crypto_go.Reflect.Sorting.{
  Each, EachKeyed, Distinct, Ascending, map_fields-EachKeyed, sort_fields-EachKeyed,
  sort_fields-Ascending, length-sort_fields, length-map_fields_le,
}
use native.Mathlib.Nat.{mod-eq_of_lt}
use darkbio_crypto_go.Reflect.Marshal.{Write, encode_placed, encode_keyed, encode_map}
use darkbio_crypto_go.Reflect.Encodable.{DistinctKeys}

-- What was appended is one valid item of limited depth.
abbrev pub Appends : ℕ → Encoder → Encoder → Type 0
Appends n e e' = (x : Item) × Valid x × (depth x ≤ n) × (e' ≡ e ++ encoding x)

-- Wherever the action succeeds it appends an item.
abbrev pub Writes : ℕ → Write → Type 0
Writes n w = (optional : Bool) (e e' : Encoder) → w.encode optional e ≡ ok e' → Appends n e e'

abbrev EachPlaced : (Write → Type 0) → List (Placed Write) → Type 0
EachPlaced P [] = Unit {0}
EachPlaced P (f ∷ fs) = P f.action × EachPlaced P fs

array_fields-EachPlaced :
    (P : Write → Type 0) (es : List (Entry Write)) → Each P es → EachPlaced P (array_fields es)
unfolding array_fields
array_fields-EachPlaced P [] h = tt
array_fields-EachPlaced P (f ∷ es) (p, h) = elim (Bool-cases f.info.exported) [
  | inl yes_ ↦ rw yes_ (p, array_fields-EachPlaced P es h)
  | inr no_ ↦ rw no_ (array_fields-EachPlaced P es h)
]

length-array_fields_le : (es : List (Entry Write)) → length (array_fields es) ≤ length es
unfolding array_fields
length-array_fields_le [] = omega arith
length-array_fields_le (f ∷ es) = ground (arith, length-array_fields_le es)

unchanged : (e e' : Bytes) → e ≡ e' → e' ≡ e ++ []
unchanged e e' h = sym h ∙ sym (append-nil e)

in_turn : (e e₁ e₂ xs ys : Bytes) → e₁ ≡ e ++ xs → e₂ ≡ e₁ ++ ys → e₂ ≡ e ++ (xs ++ ys)
in_turn e e₁ e₂ xs ys h k = k ∙ ap (λ (b : Bytes). b ++ ys) h ∙ append_assoc e xs ys

encode_placed-Items :
    (n : ℕ) (fs : List (Placed Write)) (e e' : Encoder)
    → EachPlaced (Writes n) fs
    → encode_placed fs e ≡ ok e'
    → (xs : Items) × (count xs ≡ length fs)
      × ValidItems xs
      × (depth_items xs ≤ n)
      × (e' ≡ e ++ encoding_items xs)
unfolding encode_placed encoding
encode_placed-Items n [] e e' h r = (nil, refl, tt, omega arith, unchanged e e' (cc))
encode_placed-Items n (f ∷ fs) e e' (w, h) r =
    let (e₁, first, rest) = and_then-eq-ok (f.action.encode f.optional e) _ r in
    let (x, v, d, s) = w f.optional e e₁ first in
    let (xs, len, vs, ds, ss) = encode_placed-Items n fs e₁ e' h rest in
    (
      cons x xs,
      ap suc len,
      (v, vs),
      omega arith,
      in_turn e e₁ e' (encoding x) (encoding_items xs) s ss,
    )

encode_keyed-Pairs :
    (n : ℕ) (fs : List (Keyed Write)) (prev : Option ℤ) (e e' : Encoder)
    → EachKeyed (Writes n) fs
    → Ascending prev fs
    → encode_keyed fs e ≡ ok e'
    → (ps : Pairs) × (count_pairs ps ≡ length fs)
      × ValidPairs ps prev
      × (depth_pairs ps ≤ n)
      × (e' ≡ e ++ encoding_pairs ps)
unfolding encode_keyed encoding
encode_keyed-Pairs n [] prev e e' h a r = (end, refl, tt, omega arith, unchanged e e' (cc))
encode_keyed-Pairs n (f ∷ fs) prev e e' (w, i, h) (after, a) r =
    let (e₁, first, rest) = and_then-eq-ok (f.action.encode f.optional (encode_int f.key e)) _ r in
    let (x, v, d, s) = w f.optional (encode_int f.key e) e₁ first in
    let (ps, len, vs, ds, ss) = encode_keyed-Pairs n fs (some f.key) e₁ e' h a rest in
    (
      pair f.key x ps,
      ap suc len,
      (i, after, v, vs),
      omega arith,
      in_turn e (encode_int f.key e) e' (int_encoding f.key) (encoding x ++ encoding_pairs ps)
          (encode_int_appends f.key e i)
          (in_turn (encode_int f.key e) e₁ e' (encoding x) (encoding_pairs ps) s ss),
    )

pub encode_map_header-header :
    (n : ℕ) (e : Encoder) → IsLength n → encode_map_header (pos n) e ≡ e ++ header 5 n
unfolding encode_map_header
encode_map_header-header n e h =
    rw (mod-eq_of_lt {n = n} {m = 2 ^ 64} (omega arith))
      (encode_length-header 5 n e (omega arith) (omega arith))

pub encode_array_header-header :
    (n : ℕ) (e : Encoder) → IsLength n → encode_array_header (pos n) e ≡ e ++ header 4 n
unfolding encode_array_header
encode_array_header-header n e h =
    rw (mod-eq_of_lt {n = n} {m = 2 ^ 64} (omega arith))
      (encode_length-header 4 n e (omega arith) (omega arith))

module _ (n : ℕ) (entries : List (Entry Write)) (writes : Each (Writes n) entries)
    (small : IsLength (length entries)) where
  pub array-Appends :
      (e e' : Encoder)
      → encode_placed
          (array_fields entries)
          (encode_array_header (pos (length (array_fields entries))) e)
        ≡ ok e'
      → Appends (suc n) e e'
  unfolding encoding
  array-Appends e e' r =
      let fields = array_fields entries in
      let fits : IsLength (length fields) = omega (arith, length-array_fields_le entries) in
      let (xs, len, vs, ds, ss) =
        encode_placed-Items n fields (encode_array_header (pos (length fields)) e) e'
          (array_fields-EachPlaced (Writes n) entries writes) r in
      (
        array xs,
        (omega arith, vs),
        omega arith,
        in_turn e _ e' (header 4 (count xs)) (encoding_items xs)
            (encode_array_header-header (length fields) e fits
              ∙ ap (λ (k : ℕ). e ++ header 4 k) (sym len))
            ss,
      )

  pairs-Appends :
      (fields : List (Keyed Write)) (e e' : Encoder)
      → map_fields entries ≡ ok fields
      → Distinct fields
      → encode_keyed (sort_fields fields) (encode_map_header (pos (length fields)) e) ≡ ok e'
      → Appends (suc n) e e'
  unfolding encoding
  pairs-Appends fields e e' keyed distinct r =
      let each = map_fields-EachKeyed (Writes n) entries fields writes keyed in
      let fits : IsLength (length fields) =
        omega (arith, length-map_fields_le entries fields keyed) in
      let (ps, len, vs, ds, ss) =
        encode_keyed-Pairs n (sort_fields fields) none (encode_map_header (pos (length fields)) e)
          e' (sort_fields-EachKeyed (Writes n) fields each)
          (sort_fields-Ascending (Writes n) fields each distinct) r in
      let total : length fields ≡ count_pairs ps = sym (length-sort_fields fields) ∙ sym len in
      (
        map ps,
        (omega arith, vs),
        omega arith,
        in_turn e _ e' (header 5 (count_pairs ps)) (encoding_pairs ps)
            (encode_map_header-header (length fields) e fits
              ∙ ap (λ (k : ℕ). e ++ header 5 k) total)
            ss,
      )

  pub encode_map-Appends :
      (e e' : Encoder)
      → DistinctKeys (map_fields entries)
      → encode_map entries e ≡ ok e'
      → Appends (suc n) e e'
  unfolding encode_map
  encode_map-Appends e e' distinct r =
      let (fields, keyed, rest) = and_then-eq-ok (map_fields entries) _ r in
      go fields keyed (subst DistinctKeys keyed distinct) rest
    where
      go :
          (fields : List (Keyed Write))
          → map_fields entries ≡ ok fields
          → Distinct fields
          → elim fields [
            | [] ↦
                if has_exported entries
                then err unsupported_type
                else ok (encode_map_header (pos 0) e)
            | f ∷ fs ↦
                encode_keyed (sort_fields (f ∷ fs)) (encode_map_header (pos (length (f ∷ fs))) e)
          ]
            ≡ ok e'
          → Appends (suc n) e e'
      go [] keyed d rest = elim (Bool-cases (has_exported entries)) [
        | inl yes_ ↦ absurd (cc (rw yes_ at rest))
        | inr no_ ↦
            pairs-Appends [] e e' keyed d (unfold encode_keyed sort_fields in rw no_ at rest)
      ]
      go (f ∷ fs) keyed d rest = pairs-Appends (f ∷ fs) e e' keyed d rest
