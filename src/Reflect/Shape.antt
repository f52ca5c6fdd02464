-- ===== src/Reflect/Shape.antt =====
-- What the struct tags say does not depend on what is done to the fields: encodeValue and
-- decodeValue (cbor/reflect.go) find the same layout in a struct.
use darkbio_crypto_go.Base.{
  suc, ◌≡◌, refl, ap, ◌∙◌, Option, none, some, List, [], ◌∷◌, length, inl, inr, Bool-cases,
  Option-cases, arith,
}
use darkbio_crypto_go.Base.Int.{ℤ, IsInt64}
use darkbio_crypto_go.Cbor.Types.{Result, ok, err, and_then-eq-ok}
use darkbio_crypto_go.Reflect.Types.{FieldInfo, Fields, Vals, no_fields, field, Val}
use darkbio_crypto_go.Reflect.Tags.{
  Entry, Keyed, field_key, with_key, map_fields, array_fields, want_array, has_exported,
  option_fields,
}
use darkbio_crypto_go.Reflect.Marshal.{write_entries}
use darkbio_crypto_go.Reflect.Unmarshal.{Read, read_entries, behind_first_all, type_entries}
use darkbio_crypto_go.Reflect.Sorting.{EachKeyed, Ascending, field_key-IsInt64}

abbrev pub SameShape : {A B : Type 0} → List (Entry A) → List (Entry B) → Type 0
SameShape [] [] = Unit {0}
SameShape (f ∷ fs) (g ∷ gs) = (f.info ≡ g.info) × (f.is_bool ≡ g.is_bool) × SameShape fs gs
SameShape _ _ = ⊥

pub write_entries-SameShape :
    (fs : Fields) (v : Vals fs) → SameShape (type_entries fs) (write_entries fs v)
unfolding write_entries
write_entries-SameShape no_fields v = tt
write_entries-SameShape (field info t fs) v = (refl, refl, write_entries-SameShape fs v.1)

behind-SameShape :
    (A S : Type 0) (es : List (Entry (Unit {0}))) (rs : List (Entry (Read S)))
    → SameShape es rs
    → SameShape es (behind_first_all A S rs)
behind-SameShape A S [] [] h = tt
behind-SameShape A S [] (r ∷ rs) h = absurd h
behind-SameShape A S (e ∷ es) [] h = absurd h
behind-SameShape A S (e ∷ es) (r ∷ rs) (i, b, h) = (i, b, behind-SameShape A S es rs h)

pub read_entries-SameShape : (fs : Fields) → SameShape (type_entries fs) (read_entries fs)
unfolding read_entries
read_entries-SameShape no_fields = tt
read_entries-SameShape (field info t fs) = (
  refl,
  refl,
  behind-SameShape (Val t) (Vals fs) (type_entries fs) (read_entries fs)
      (read_entries-SameShape fs),
)

-- The key of a field, where its tag states one without an error.
unfoldable pub key_of : FieldInfo → Option ℤ
unfolding field_key
key_of info = elim (field_key info) [ ok key ↦ key | err e ↦ none ]

unfoldable pub keyed_fields : {A : Type 0} → List (Entry A) → List (Keyed A)
unfolding key_of with_key
keyed_fields [] = []
keyed_fields (f ∷ fs) = with_key f (key_of f.info) (keyed_fields fs)

pub key_of-IsInt64 : (info : FieldInfo) (k : ℤ) → key_of info ≡ some k → IsInt64 k
unfolding key_of
key_of-IsInt64 info k h = go (field_key info) refl h
  where
    go :
        (r : Result (Option ℤ))
        → field_key info ≡ r
        → elim r [ ok key ↦ key | err e ↦ none ] ≡ some k
        → IsInt64 k
    go (ok key) e h = field_key-IsInt64 info k (e ∙ ap ok h)
    go (err x) e h = cc

pub keyed_fields-IsInt64 :
    {A : Type 0} (es : List (Entry A)) → EachKeyed (λ (a : A). Unit {0}) (keyed_fields es)
unfolding keyed_fields with_key
keyed_fields-IsInt64 [] = tt
keyed_fields-IsInt64 {A = A} (f ∷ es) = elim (Option-cases (key_of f.info)) [
  | inl keyless ↦ rw keyless (keyed_fields-IsInt64 es)
  | inr (k, keyed) ↦ rw keyed (tt, key_of-IsInt64 f.info k keyed, keyed_fields-IsInt64 es)
]

module _ {A B : Type 0} where
  pub option_fields-SameShape :
      (es : List (Entry A)) (gs : List (Entry B))
      → SameShape es gs
      → option_fields es ≡ none
      → option_fields gs ≡ none
  unfolding option_fields
  option_fields-SameShape es [] s h = refl
  option_fields-SameShape es (g ∷ []) s h = refl
  option_fields-SameShape es (g ∷ g' ∷ g'' ∷ gs) s h = refl
  option_fields-SameShape [] (g ∷ g' ∷ []) s h = absurd s
  option_fields-SameShape (f ∷ []) (g ∷ g' ∷ []) (i, b, s) h = absurd s
  option_fields-SameShape (f ∷ f' ∷ f'' ∷ fs) (g ∷ g' ∷ []) (i, b, (i', b', s)) h = absurd s
  option_fields-SameShape (f ∷ f' ∷ []) (g ∷ g' ∷ []) (i, b, (i', b', s)) h =
      rw (← i, ← i', ← b') (ground arith)

  pub want_array-SameShape :
      (es : List (Entry A)) (gs : List (Entry B)) → SameShape es gs → want_array es ≡ want_array gs
  unfolding want_array
  want_array-SameShape [] [] s = refl
  want_array-SameShape [] (g ∷ gs) s = absurd s
  want_array-SameShape (f ∷ fs) [] s = absurd s
  want_array-SameShape (f ∷ fs) (g ∷ gs) (i, b, s) = rw (i, want_array-SameShape fs gs s)

  pub has_exported-SameShape :
      (es : List (Entry A)) (gs : List (Entry B))
      → SameShape es gs
      → has_exported es ≡ has_exported gs
  unfolding has_exported
  has_exported-SameShape [] [] s = refl
  has_exported-SameShape [] (g ∷ gs) s = absurd s
  has_exported-SameShape (f ∷ fs) [] s = absurd s
  has_exported-SameShape (f ∷ fs) (g ∷ gs) (i, b, s) = rw (i, has_exported-SameShape fs gs s)

  pub length-array_fields-SameShape :
      (es : List (Entry A)) (gs : List (Entry B))
      → SameShape es gs
      → length (array_fields es) ≡ length (array_fields gs)
  unfolding array_fields
  length-array_fields-SameShape [] [] s = refl
  length-array_fields-SameShape [] (g ∷ gs) s = absurd s
  length-array_fields-SameShape (f ∷ fs) [] s = absurd s
  length-array_fields-SameShape (f ∷ fs) (g ∷ gs) (i, b, s) =
      let same = length-array_fields-SameShape fs gs s in
      elim (Bool-cases g.info.exported) [
        | inl yes_ ↦ rw (i, yes_) (ap suc same)
        | inr no_ ↦ rw (i, no_) same
      ]

  -- If one list of entries has no broken key, then neither has the other.
  pub map_fields-SameShape :
      (es : List (Entry A)) (gs : List (Entry B)) (ks : List (Keyed A))
      → SameShape es gs
      → map_fields es ≡ ok ks
      → map_fields gs ≡ ok (keyed_fields gs)
  unfolding map_fields keyed_fields
  map_fields-SameShape [] [] ks s h = refl
  map_fields-SameShape [] (g ∷ gs) ks s h = absurd s
  map_fields-SameShape (f ∷ fs) [] ks s h = absurd s
  map_fields-SameShape (f ∷ fs) (g ∷ gs) ks (i, b, s) h =
      let (key, is_key, more) = and_then-eq-ok (field_key f.info) _ h in
      let (rest, below, last) = and_then-eq-ok (map_fields fs) _ more in
      rw (← i, is_key, key_of, map_fields-SameShape fs gs rest s below)

  pub length-keyed_fields-SameShape :
      (es : List (Entry A)) (gs : List (Entry B))
      → SameShape es gs
      → length (keyed_fields es) ≡ length (keyed_fields gs)
  unfolding keyed_fields with_key
  length-keyed_fields-SameShape [] [] s = refl
  length-keyed_fields-SameShape [] (g ∷ gs) s = absurd s
  length-keyed_fields-SameShape (f ∷ fs) [] s = absurd s
  length-keyed_fields-SameShape (f ∷ fs) (g ∷ gs) (i, b, s) =
      let same = length-keyed_fields-SameShape fs gs s in
      elim (Option-cases (key_of g.info)) [
        | inl keyless ↦ rw (i, keyless) same
        | inr (k, keyed) ↦ rw (i, keyed) (ap suc same)
      ]

  pub Ascending-SameShape :
      (prev : Option ℤ) (es : List (Entry A)) (gs : List (Entry B))
      → SameShape es gs
      → Ascending prev (keyed_fields es)
      → Ascending prev (keyed_fields gs)
  unfolding keyed_fields with_key
  Ascending-SameShape prev [] [] s h = tt
  Ascending-SameShape prev [] (g ∷ gs) s h = absurd s
  Ascending-SameShape prev (f ∷ fs) [] s h = absurd s
  Ascending-SameShape prev (f ∷ fs) (g ∷ gs) (i, b, s) h = elim (Option-cases (key_of g.info)) [
    | inl keyless ↦ rw keyless (Ascending-SameShape prev fs gs s (rw (i, keyless) at h))
    | inr (k, keyed) ↦
        let (after, rest) : Ascending prev (with_key f (some k) (keyed_fields fs)) =
          rw (i, keyed) at h in
        rw keyed (after, Ascending-SameShape (some k) fs gs s rest)
  ]
