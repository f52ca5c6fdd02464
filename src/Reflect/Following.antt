-- ===== src/Reflect/Following.antt =====
-- Decoding the fields of a struct in a known order (decodeValue, cbor/reflect.go).
use darkbio_crypto_go.Base.{
  ◌<◌, ◌≤◌, ◌≡◌, refl, sym, ap, ◌∙◌, Option, none, some, true, false, List, [], ◌∷◌, length, inl,
  inr, Bool-cases, Option-cases, arith, if◌then◌else◌, lt→compare,
}
use darkbio_crypto_go.Base.Int.{ℤ, pos, negsuc, IsInt64}
use darkbio_crypto_go.Cbor.Types.{Bytes, unsupported_type}
use darkbio_crypto_go.Cbor.KeyOrder.{rank, map_key_cmp-rank}
use darkbio_crypto_go.Cbor.Item.{After}
use darkbio_crypto_go.Cbor.Decoder.{Decoder, Run, M, done, fail, ◌>>=◌, pure, throw, decode_int}
use darkbio_crypto_go.Cbor.Cursor.{Reads, >>=-eq-done}
use darkbio_crypto_go.Reflect.Tags.{Entry, Keyed, array_fields, with_key, tag_has, optional_word}
use darkbio_crypto_go.Reflect.Unmarshal.{
  Read, behind_first_all, same_key, check_key, decode_placed, decode_pairs, find_field,
}
use darkbio_crypto_go.Reflect.Sorting.{EachKeyed, Ascending}
use darkbio_crypto_go.Reflect.Shape.{keyed_fields, key_of}

pub same_key_sound : (a b : ℤ) → same_key a b ≡ true → a ≡ b
same_key_sound (pos m) (pos n) h = ap pos (ground arith)
same_key_sound (pos m) (negsuc n) h = cc
same_key_sound (negsuc m) (pos n) h = cc
same_key_sound (negsuc m) (negsuc n) h = ap negsuc (ground arith)

pub same_key_refl : (a : ℤ) → same_key a a ≡ true
same_key_refl (pos m) = ground arith
same_key_refl (negsuc m) = ground arith

-- The fields of a map, each behind its own key.
unfoldable pub in_order : {S : Type 0} → List (Keyed (Read S)) → S → M S
in_order [] s = pure s
in_order (f ∷ fs) s = decode_int >>= λ key.
    if same_key f.key key
    then f.action.decode f.optional s >>= in_order fs
    else throw unsupported_type

abbrev pub keeping : {A S : Type 0} → A → M S → M (A × S)
keeping a m = m >>= λ s. pure (a, s)

-- Fields further back, behind a field with the value `a`.
module _ {A S : Type 0} (a : A) where
  keeping-bind :
      (m : M S) (f : S → M S) (g : A × S → M (A × S)) (d : Decoder)
      → ((s : S) (d' : Decoder) → g (a, s) d' ≡ keeping a (f s) d')
      → (keeping a m >>= g) d ≡ keeping a (m >>= f) d
  keeping-bind m f g d h = go (m d) refl
    where
      go : (r : Run S) → m d ≡ r → (keeping a m >>= g) d ≡ keeping a (m >>= f) d
      go (done s d') e = rw (e, ◌>>=◌, keeping) (h s d')
      go (fail x d') e = rw (e, ◌>>=◌, keeping)

  after_key :
      (f : ℤ → M S) (g : ℤ → M (A × S)) (d : Decoder)
      → ((key : ℤ) (d' : Decoder) → g key d' ≡ keeping a (f key) d')
      → (decode_int >>= g) d ≡ keeping a (decode_int >>= f) d
  after_key f g d h = go (decode_int d) refl
    where
      go : (r : Run ℤ) → decode_int d ≡ r → (decode_int >>= g) d ≡ keeping a (decode_int >>= f) d
      go (done key d') e = rw (e, ◌>>=◌, keeping) (h key d')
      go (fail x d') e = rw (e, ◌>>=◌, keeping)

  pub placed_behind :
      (es : List (Entry (Read S))) (s : S) (d : Decoder)
      → decode_placed (array_fields (behind_first_all A S es)) (a, s) d
        ≡ keeping a (decode_placed (array_fields es) s) d
  unfolding decode_placed array_fields
  placed_behind [] s d = refl
  placed_behind (f ∷ es) s d = elim (Bool-cases f.info.exported) [
    | inl yes_ ↦ rw yes_ (
        keeping-bind (f.action.decode (tag_has optional_word f.info.tag) s)
          (decode_placed (array_fields es)) (decode_placed (array_fields (behind_first_all A S es)))
          d (placed_behind es))
    | inr no_ ↦ rw no_ (placed_behind es s d)
  ]

  pub in_order_behind :
      (es : List (Entry (Read S))) (s : S) (d : Decoder)
      → in_order (keyed_fields (behind_first_all A S es)) (a, s) d
        ≡ keeping a (in_order (keyed_fields es) s) d
  unfolding in_order keyed_fields with_key
  in_order_behind [] s d = refl
  in_order_behind (f ∷ es) s d = elim (Option-cases (key_of f.info)) [
    | inl keyless ↦ rw keyless (in_order_behind es s d)
    | inr (k, keyed) ↦ rw keyed (
        after_key _ _ d (λ key d'. elim (Bool-cases (same_key k key)) [
          | inl same ↦ rw same (
              keeping-bind (f.action.decode (tag_has optional_word f.info.tag) s)
                (in_order (keyed_fields es)) (in_order (keyed_fields (behind_first_all A S es))) d'
                (in_order_behind es))
          | inr other ↦ rw other
        ]))
  ]

  pub keeping-Reads :
      (m : M S) (n : M (A × S)) (enc : Bytes) (s : S)
      → ((d : Decoder) → n d ≡ keeping a m d)
      → Reads m enc s
      → Reads n enc (a, s)
  keeping-Reads m n enc s h r d rest at = h d ∙ rw (r d rest at, keeping, ◌>>=◌)

abbrev pub AllKey : Option ℤ → Type 0
AllKey none = Unit {0}
AllKey (some k) = IsInt64 k

check_key-After :
    (prev : Option ℤ) (key : ℤ) (d : Decoder)
    → AllKey prev
    → IsInt64 key
    → After prev key
    → check_key prev key d ≡ done tt d
unfolding check_key
check_key-After none key d i j h = refl
check_key-After (some k) key d i j h =
    rw (map_key_cmp-rank k key i j, check_key, lt→compare (rank k) (rank key) h)

-- A strictly ascending list of fields: nothing behind a field has its key.
module _ {S : Type 0} where
  find_field-none :
      (key p : ℤ) (fs : List (Keyed (Read S)))
      → rank key ≤ rank p
      → Ascending (some p) fs
      → find_field key fs ≡ none
  unfolding find_field
  find_field-none key p [] h a = refl
  find_field-none key p (f ∷ fs) h (after, a) =
      rw (find_field-none key f.key fs (omega arith) a, find_field, other f.key key (omega arith))
    where
      other : (k key : ℤ) → rank key < rank k → same_key k key ≡ false
      other (pos m) (pos n) h = ground arith
      other (pos m) (negsuc n) h = refl
      other (negsuc m) (pos n) h = refl
      other (negsuc m) (negsuc n) h = ground arith

  -- Each field of the second list is the one that its key finds in the first.
  abbrev pub Found : List (Keyed (Read S)) → List (Keyed (Read S)) → Type 0
  Found all [] = Unit {0}
  Found all (f ∷ fs) = (find_field f.key all ≡ some f) × Found all fs

  Found-cons :
      (g : Keyed (Read S)) (all fs : List (Keyed (Read S))) → Found all fs → Found (g ∷ all) fs
  unfolding find_field
  Found-cons g all [] h = tt
  Found-cons g all (f ∷ fs) (e, h) = (rw e, Found-cons g all fs h)

  pub Ascending-Found :
      (prev : Option ℤ) (fs : List (Keyed (Read S))) → Ascending prev fs → Found fs fs
  unfolding find_field
  Ascending-Found prev [] a = tt
  Ascending-Found prev (f ∷ fs) (after, a) = (
    rw (find_field-none f.key f.key fs (omega arith) a, find_field, same_key_refl f.key),
    Found-cons f fs fs (Ascending-Found (some f.key) fs a),
  )

  -- Fields that come in their order are found one by one.
  pub decode_pairs-in_order :
      (all fs : List (Keyed (Read S))) (prev : Option ℤ) (s s' : S) (d d' : Decoder)
      → AllKey prev
      → EachKeyed (λ (r : Read S). Unit {0}) fs
      → Found all fs
      → Ascending prev fs
      → in_order fs s d ≡ done s' d'
      → decode_pairs all (length fs) prev s d ≡ done s' d'
  unfolding decode_pairs in_order
  decode_pairs-in_order all [] prev s s' d d' i e found a h = h
  decode_pairs-in_order all (f ∷ fs) prev s s' d d' i (u, j, e) (here, found) (after, a) h =
      let (key, d₁, read, h₁) = >>=-eq-done decode_int _ d d' s' h in
      elim (Bool-cases (same_key f.key key)) [
        | inl same ↦
            let is_key : f.key ≡ key = same_key_sound f.key key same in
            let (s₁, d₂, decoded, h₂) =
              >>=-eq-done (f.action.decode f.optional s) _ d₁ d' s' (rw same at h₁) in
            let read_key : decode_int d ≡ done f.key d₁ =
              read ∙ ap (λ (k : ℤ). done k d₁) (sym is_key) in
            rw (read_key, ◌>>=◌, check_key-After prev f.key d₁ i j after, here, decoded)
              (decode_pairs-in_order all fs (some f.key) s₁ s' d₂ d' j e found a h₂)
        | inr other ↦ absurd (cc (rw other at h₁))
      ]
