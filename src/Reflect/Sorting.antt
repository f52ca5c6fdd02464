-- ===== src/Reflect/Sorting.antt =====
-- The fields of a map in the order of their keys (mapFields and the sort in encodeValue,
-- cbor/reflect.go).
use darkbio_crypto_go.Base.{
  suc, ◌≤◌, ◌<◌, ◌≡◌, ◌≢◌, refl, ap, ◌∙◌, Option, none, some, true, false, List, [], ◌∷◌, length,
  inl, inr, Bool-cases, arith, compare, subst, ◌==◌,
}
use darkbio_crypto_go.Base.Int.{ℤ, pos, negsuc, IsInt64}
use darkbio_crypto_go.Cbor.Types.{Bytes, ok, and_then-eq-ok}
use darkbio_crypto_go.Cbor.KeyOrder.{rank, map_key_cmp-rank}
use darkbio_crypto_go.Cbor.Verify.{map_key_cmp, is_lt}
use darkbio_crypto_go.Cbor.Item.{After}
use darkbio_crypto_go.Reflect.Types.{FieldInfo}
use darkbio_crypto_go.Reflect.Tags.{
  Entry, Keyed, map_fields, with_key, field_key, parse_int, parse_positive, parse_negative,
  split_commas, insert_field, sort_fields,
}

parse_positive-IsInt64 : (s : Bytes) (k : ℤ) → parse_positive s ≡ some k → IsInt64 k
unfolding parse_positive
parse_positive-IsInt64 [] k h = cc
parse_positive-IsInt64 (d ∷ ds) (pos m) h = ground arith
parse_positive-IsInt64 (d ∷ ds) (negsuc m) h = ground arith

parse_negative-IsInt64 : (s : Bytes) (k : ℤ) → parse_negative s ≡ some k → IsInt64 k
unfolding parse_negative
parse_negative-IsInt64 [] k h = cc
parse_negative-IsInt64 (d ∷ ds) (pos m) h = ground arith
parse_negative-IsInt64 (d ∷ ds) (negsuc m) h = ground arith

parse_int-IsInt64 : (s : Bytes) (k : ℤ) → parse_int s ≡ some k → IsInt64 k
unfolding parse_int
parse_int-IsInt64 [] k h = cc
parse_int-IsInt64 (c ∷ cs) k h = elim (Bool-cases (c == b'-')) [
  | inl minus ↦ parse_negative-IsInt64 cs k (rw minus at h)
  | inr no_minus ↦ elim (Bool-cases (c == b'+')) [
    | inl plus ↦ parse_positive-IsInt64 cs k (rw (no_minus, plus) at h)
    | inr no_plus ↦ parse_positive-IsInt64 (c ∷ cs) k (rw (no_minus, no_plus) at h)
  ]
]

field_key_inv :
    (info : FieldInfo) (k : ℤ)
    → field_key info ≡ ok (some k)
    → parse_int (split_commas info.tag).0 ≡ some k
unfolding field_key
field_key_inv info k h = ground arith

-- Every key that a tag can state is an int64.
pub field_key-IsInt64 : (info : FieldInfo) (k : ℤ) → field_key info ≡ ok (some k) → IsInt64 k
field_key-IsInt64 info k h = parse_int-IsInt64 _ k (field_key_inv info k h)

lt_of_cmp : (a b : ℤ) → IsInt64 a → IsInt64 b → is_lt (map_key_cmp a b) ≡ true → rank a < rank b
lt_of_cmp a b ha hb h =
    let ranked : is_lt (compare (rank a) (rank b)) ≡ true = rw (map_key_cmp-rank a b ha hb) at h in
    ground arith

gt_of_cmp :
    (a b : ℤ)
    → IsInt64 a
    → IsInt64 b
    → rank b ≢ rank a
    → is_lt (map_key_cmp a b) ≡ false
    → rank b < rank a
gt_of_cmp a b ha hb n h =
    let ranked : is_lt (compare (rank a) (rank b)) ≡ false = rw (map_key_cmp-rank a b ha hb) at h in
    ground arith

module _ {A : Type 0} where
  -- A property of the action of every field.
  abbrev pub Each : (A → Type 0) → List (Entry A) → Type 0
  Each P [] = Unit {0}
  Each P (f ∷ fs) = P f.action × Each P fs

  abbrev pub EachKeyed : (A → Type 0) → List (Keyed A) → Type 0
  EachKeyed P [] = Unit {0}
  EachKeyed P (f ∷ fs) = P f.action × IsInt64 f.key × EachKeyed P fs

  -- No field has the place of `k` in the key order.
  abbrev pub Fresh : ℤ → List (Keyed A) → Type 0
  Fresh k [] = Unit {0}
  Fresh k (f ∷ fs) = (rank k ≢ rank f.key) × Fresh k fs

  abbrev pub Distinct : List (Keyed A) → Type 0
  Distinct [] = Unit {0}
  Distinct (f ∷ fs) = Fresh f.key fs × Distinct fs

  abbrev pub Ascending : Option ℤ → List (Keyed A) → Type 0
  Ascending prev [] = Unit {0}
  Ascending prev (f ∷ fs) = After prev f.key × Ascending (some f.key) fs

  insert_field-EachKeyed :
      (P : A → Type 0) (f : Keyed A) (gs : List (Keyed A))
      → P f.action
      → IsInt64 f.key
      → EachKeyed P gs
      → EachKeyed P (insert_field f gs)
  unfolding insert_field
  insert_field-EachKeyed P f [] p i h = (p, i, tt)
  insert_field-EachKeyed P f (g ∷ gs) p i (q, j, h) =
      elim (Bool-cases (is_lt (map_key_cmp g.key f.key))) [
        | inl before ↦ rw before (q, j, insert_field-EachKeyed P f gs p i h)
        | inr behind ↦ rw behind (p, i, (q, j, h))
      ]

  pub sort_fields-EachKeyed :
      (P : A → Type 0) (fs : List (Keyed A)) → EachKeyed P fs → EachKeyed P (sort_fields fs)
  unfolding sort_fields
  sort_fields-EachKeyed P [] h = tt
  sort_fields-EachKeyed P (f ∷ fs) (p, i, h) =
      insert_field-EachKeyed P f (sort_fields fs) p i (sort_fields-EachKeyed P fs h)

  length-insert_field :
      (f : Keyed A) (gs : List (Keyed A)) → length (insert_field f gs) ≡ suc (length gs)
  unfolding insert_field
  length-insert_field f [] = refl
  length-insert_field f (g ∷ gs) = ground (arith, length-insert_field f gs)

  pub length-sort_fields : (fs : List (Keyed A)) → length (sort_fields fs) ≡ length fs
  unfolding sort_fields
  length-sort_fields [] = refl
  length-sort_fields (f ∷ fs) =
      length-insert_field f (sort_fields fs) ∙ ap suc (length-sort_fields fs)

  insert_field-Fresh :
      (k : ℤ) (f : Keyed A) (gs : List (Keyed A))
      → rank k ≢ rank f.key
      → Fresh k gs
      → Fresh k (insert_field f gs)
  unfolding insert_field
  insert_field-Fresh k f [] n h = (n, tt)
  insert_field-Fresh k f (g ∷ gs) n (m, h) = elim (Bool-cases (is_lt (map_key_cmp g.key f.key))) [
    | inl before ↦ rw before (m, insert_field-Fresh k f gs n h)
    | inr behind ↦ rw behind (n, (m, h))
  ]

  sort_fields-Fresh : (k : ℤ) (fs : List (Keyed A)) → Fresh k fs → Fresh k (sort_fields fs)
  unfolding sort_fields
  sort_fields-Fresh k [] h = tt
  sort_fields-Fresh k (f ∷ fs) (n, h) =
      insert_field-Fresh k f (sort_fields fs) n (sort_fields-Fresh k fs h)

  insert_field-Ascending :
      (P : A → Type 0) (f : Keyed A) (gs : List (Keyed A)) (prev : Option ℤ)
      → IsInt64 f.key
      → EachKeyed P gs
      → Fresh f.key gs
      → After prev f.key
      → Ascending prev gs
      → Ascending prev (insert_field f gs)
  unfolding insert_field
  insert_field-Ascending P f [] prev i e n a h = (a, tt)
  insert_field-Ascending P f (g ∷ gs) prev i (q, j, e) (n, m) a (b, h) =
      elim (Bool-cases (is_lt (map_key_cmp g.key f.key))) [
        | inl before ↦ rw before (
          b,
          insert_field-Ascending P f gs (some g.key) i e m (lt_of_cmp g.key f.key j i before) h,
        )
        | inr behind ↦ rw behind (a, (gt_of_cmp g.key f.key j i n behind, h))
      ]

  -- Distinct keys are sorted into strictly ascending order.
  pub sort_fields-Ascending :
      (P : A → Type 0) (fs : List (Keyed A))
      → EachKeyed P fs
      → Distinct fs
      → Ascending none (sort_fields fs)
  unfolding sort_fields
  sort_fields-Ascending P [] h d = tt
  sort_fields-Ascending P (f ∷ fs) (p, i, h) (n, d) =
      insert_field-Ascending P f (sort_fields fs) none i (sort_fields-EachKeyed P fs h)
        (sort_fields-Fresh f.key fs n) tt (sort_fields-Ascending P fs h d)

  -- The fields that mapFields returns are those of the struct, under int64 keys.
  pub map_fields-EachKeyed :
      (P : A → Type 0) (es : List (Entry A)) (fs : List (Keyed A))
      → Each P es
      → map_fields es ≡ ok fs
      → EachKeyed P fs
  unfolding map_fields with_key
  map_fields-EachKeyed P [] fs h e = subst (EachKeyed P) {x = []} (cc) tt
  map_fields-EachKeyed P (f ∷ es) fs (p, h) e =
      let (key, is_key, more) = and_then-eq-ok (field_key f.info) _ e in
      let (rest, below, last) = and_then-eq-ok (map_fields es) _ more in
      let tail = map_fields-EachKeyed P es rest h below in go key rest is_key last tail
    where
      go :
          (key : Option ℤ) (rest : List (Keyed A))
          → field_key f.info ≡ ok key
          → ok (with_key f key rest) ≡ ok fs
          → EachKeyed P rest
          → EachKeyed P fs
      go none rest k last tail = subst (EachKeyed P) {x = rest} (cc) tail
      go (some n) rest k last tail =
          subst (EachKeyed P) {x = with_key f (some n) rest} (cc)
            (p, field_key-IsInt64 f.info n k, tail)

  pub length-map_fields_le :
      (es : List (Entry A)) (fs : List (Keyed A)) → map_fields es ≡ ok fs → length fs ≤ length es
  unfolding map_fields
  length-map_fields_le [] fs e = let same : fs ≡ [] = cc in omega (arith, ap length same)
  length-map_fields_le (f ∷ es) fs e =
      let (key, is_key, more) = and_then-eq-ok (field_key f.info) _ e in
      let (rest, below, last) = and_then-eq-ok (map_fields es) _ more in
      let shorter = length-map_fields_le es rest below in go key rest last shorter
    where
      go :
          (key : Option ℤ) (rest : List (Keyed A))
          → ok (with_key f key rest) ≡ ok fs
          → length rest ≤ length es
          → length fs ≤ suc (length es)
      go none rest last h =
          let same : fs ≡ rest = unfold with_key in cc in omega (arith, ap length same)
      go (some n) rest last h =
          let same : fs ≡ with_key f (some n) rest = cc in
          unfold with_key in omega (arith, ap length same)
