-- ===== src/Reflect/Keeping.antt =====
-- decodeValue leaves a variable within its type (cbor/reflect.go).
use darkbio_crypto_go.Base.{
  ℕ, zero, suc, ◌≡◌, refl, ◌∙◌, subst, Option, none, some, Bool, true, false, ◌&&◌, List, [], ◌∷◌,
  length, inl, inr, Bool-cases, Option-cases, ◌==◌, arith,
}
use darkbio_crypto_go.Base.Int.{ℤ}
use darkbio_crypto_go.Cbor.Types.{Result, ok, err}
use darkbio_crypto_go.Cbor.Decoder.{
  peek_null, decode_int, decode_null, decode_array_header, decode_map_header,
}
use darkbio_crypto_go.Reflect.Tags.{
  Entry, Keyed, array_fields, map_fields, option_fields, want_array, has_exported,
}
use darkbio_crypto_go.Reflect.Unmarshal.{
  Read, decode_placed, decode_pairs, find_field, same_key, check_key, decode_map, decode_option,
  decode_struct, count_differs,
}
use darkbio_crypto_go.Reflect.Sorting.{Each, EachKeyed, map_fields-EachKeyed}
use darkbio_crypto_go.Reflect.Typed.{
  Returns, throw-Returns, pure-Returns, bind-Returns, if-Returns, after-Returns,
}

-- What is done to a field keeps a property of the struct.
pub record Keeps {S : Type 0} (P : S → Type 0) (r : Read S) : Type 0 where
  pub decodes : (optional : Bool) (s : S) → P s → Returns (r.decode optional s) P
  pub sets_bool : (b : Bool) (s : S) → P s → P (r.set_bool b s)
  pub clears : (s : S) → P s → P (r.clear s)

module _ {S : Type 0} (P : S → Type 0) where
  decode_placed-Keeps :
      (es : List (Entry (Read S))) (s : S)
      → Each (Keeps P) es
      → P s
      → Returns (decode_placed (array_fields es) s) P
  unfolding decode_placed array_fields
  decode_placed-Keeps [] s k p = pure-Returns P s p
  decode_placed-Keeps (f ∷ es) s (k, ks) p = elim (Bool-cases f.info.exported) [
    | inl yes_ ↦ rw yes_ (
        after-Returns P P (f.action.decode _ s) _ (k.decodes _ s p)
          (λ s'. decode_placed-Keeps es s' ks))
    | inr no_ ↦ rw no_ (decode_placed-Keeps es s ks p)
  ]

  find_field-Keeps :
      (key : ℤ) (fs : List (Keyed (Read S))) (f : Keyed (Read S))
      → EachKeyed (Keeps P) fs
      → find_field key fs ≡ some f
      → Keeps P f.action
  unfolding find_field
  find_field-Keeps key [] f k h = cc
  find_field-Keeps key (g ∷ fs) f (k, i, ks) h = elim (Option-cases (find_field key fs)) [
    | inl none_ ↦ elim (Bool-cases (same_key g.key key)) [
      | inl same ↦
          subst (λ (x : Keyed (Read S)). Keeps P x.action) {x = g} {y = f}
            (cc (rw (none_, find_field, same) at h)) k
      | inr other ↦ absurd (cc (rw (none_, find_field, other) at h))
    ]
    | inr (x, found) ↦ find_field-Keeps key fs f ks (found ∙ rw (found, find_field) at h)
  ]

  decode_pairs-Keeps :
      (fs : List (Keyed (Read S))) (n : ℕ) (prev : Option ℤ) (s : S)
      → EachKeyed (Keeps P) fs
      → P s
      → Returns (decode_pairs fs n prev s) P
  unfolding decode_pairs
  decode_pairs-Keeps fs zero prev s k p = pure-Returns P s p
  decode_pairs-Keeps fs (suc n) prev s k p = bind-Returns P decode_int _ λ key.
      bind-Returns P (check_key prev key) _ λ u. elim (Option-cases (find_field key fs)) [
        | inl none_ ↦ rw none_ (throw-Returns P _)
        | inr (f, found) ↦
            let kept = find_field-Keeps key fs f k found in
            rw found (
              after-Returns P P (f.action.decode f.optional s) _ (kept.decodes f.optional s p)
                (λ s'. decode_pairs-Keeps fs n (some key) s' k))
      ]

  decode_map-Keeps :
      (es : List (Entry (Read S))) (s : S) → Each (Keeps P) es → P s → Returns (decode_map es s) P
  unfolding decode_map
  decode_map-Keeps es s k p = go (map_fields es) refl
    where
      go : (r : Result (List (Keyed (Read S)))) → map_fields es ≡ r → Returns (decode_map es s) P
      go (err e) m = rw (m, decode_map) (throw-Returns P e)
      go (ok fs) m =
          rw (m, decode_map)
            (if-Returns P (length fs == 0 && has_exported es) _ _ (λ t. throw-Returns P _)
              (λ t. bind-Returns P decode_map_header _ λ count.
                if-Returns P (count_differs count (length fs)) _ _ (λ u. throw-Returns P _)
                  (λ u.
                    decode_pairs-Keeps fs count none s (map_fields-EachKeyed (Keeps P) es fs k m)
                      p)))

  option_fields-Keeps :
      (es : List (Entry (Read S))) (a b : Read S)
      → Each (Keeps P) es
      → option_fields es ≡ some (a, b)
      → Keeps P a × Keeps P b
  unfolding option_fields
  option_fields-Keeps [] a b k h = cc
  option_fields-Keeps (f ∷ []) a b k h = cc
  option_fields-Keeps (f ∷ g ∷ g' ∷ es) a b k h = cc
  option_fields-Keeps (f ∷ g ∷ []) a b (k, (l, u)) h = (
    subst (Keeps P) {x = f.action} {y = a} (ground arith) k,
    subst (Keeps P) {x = g.action} {y = b} (ground arith) l,
  )

  decode_option-Keeps :
      (a b : Read S) (s : S) → Keeps P a → Keeps P b → P s → Returns (decode_option a b s) P
  unfolding decode_option
  decode_option-Keeps a b s k l p d d' s' h = elim (Bool-cases (peek_null d)) [
    | inl yes_ ↦
        bind-Returns P decode_null _ (λ u. pure-Returns P _ (k.clears _ (l.sets_bool false s p))) d
          d' s' (rw yes_ at h)
    | inr no_ ↦
        after-Returns P P (a.decode false s) _ (k.decodes false s p)
          (λ x q. pure-Returns P _ (l.sets_bool true x q)) d d' s' (rw no_ at h)
  ]

  pub decode_struct-Keeps :
      (es : List (Entry (Read S))) (s : S)
      → Each (Keeps P) es
      → P s
      → Returns (decode_struct es s) P
  unfolding decode_struct
  decode_struct-Keeps es s k p = elim (Option-cases (option_fields es)) [
    | inl plain ↦
        rw (plain, decode_struct)
          (if-Returns P (want_array es) _ _
            (λ yes_. bind-Returns P decode_array_header _ λ count.
              if-Returns P (count_differs count (length (array_fields es))) _ _
                (λ t. throw-Returns P _) (λ t. decode_placed-Keeps es s k p))
            (λ no_. decode_map-Keeps es s k p))
    | inr ((a, b), option) ↦
        let (ka, kb) = option_fields-Keeps es a b k option in
        rw (option, decode_struct) (decode_option-Keeps a b s ka kb p)
  ]
