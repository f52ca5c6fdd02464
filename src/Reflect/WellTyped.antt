-- ===== src/Reflect/WellTyped.antt =====
-- Unmarshal leaves a variable within its type (cbor/reflect.go).
use darkbio_crypto_go.Base.{
  ◌≡◌, refl, subst, ◌∙◌, Option, none, some, Bool, true, false, ◌&&◌, not, List, [], ◌∷◌, inl, inr,
  Bool-cases,
}
use darkbio_crypto_go.Cbor.Types.{Bytes, ok, err, ok-injective}
use darkbio_crypto_go.Cbor.Decoder.{
  Decoder, Run, done, fail, ◌>>=◌, ◌>>◌, pure, new_decoder, finish, peek_null, decode_uint,
  decode_int, decode_null, decode_bytes,
}
use darkbio_crypto_go.Cbor.Cursor.{>>=-eq-done}
use darkbio_crypto_go.Reflect.Types
use darkbio_crypto_go.Reflect.Types.{Ty, Fields, Val, Vals, zero_value}
use darkbio_crypto_go.Reflect.Tags.{Entry}
use darkbio_crypto_go.Reflect.Unmarshal.{
  Read, decode_from, read_entries, behind_first_all, set_bool_of, pointee, is_option, unmarshal,
  decode_value,
}
use darkbio_crypto_go.Reflect.Sorting.{Each}
use darkbio_crypto_go.Reflect.Typed.{
  WellTyped, WellTypedFields, zero_value-WellTyped, set_uint-WellTyped, set_int-WellTyped, Returns,
  throw-Returns, pure-Returns, bind-Returns, if-Returns, after-Returns, decode_bytes-Returns,
  decode_bytes_fixed-Returns, decode_text-Returns, LengthFits,
}
use darkbio_crypto_go.Reflect.Keeping.{Keeps, decode_struct-Keeps}

set_bool_of-WellTyped :
    (t : Ty) (b : Bool) (v : Val t) → WellTyped t v → WellTyped t (set_bool_of t b v)
unfolding set_bool_of
set_bool_of-WellTyped Types.bool b v h = tt
set_bool_of-WellTyped (Types.uint width) b v h = h
set_bool_of-WellTyped (Types.int width) b v h = h
set_bool_of-WellTyped Types.string b v h = h
set_bool_of-WellTyped Types.raw b v h = h
set_bool_of-WellTyped Types.byte_slice b v h = h
set_bool_of-WellTyped Types.other_slice b v h = h
set_bool_of-WellTyped (Types.byte_array n) b v h = h
set_bool_of-WellTyped Types.other_array b v h = h
set_bool_of-WellTyped Types.unit b v h = h
set_bool_of-WellTyped Types.null b v h = h
set_bool_of-WellTyped (Types.struct fs) b v h = h
set_bool_of-WellTyped (Types.ptr t) b v h = h
set_bool_of-WellTyped Types.other b v h = h

pointee-WellTyped :
    (t : Ty) (v : Option (Val t)) → WellTyped (Types.ptr t) v → WellTyped t (pointee t v)
pointee-WellTyped t none h = zero_value-WellTyped t
pointee-WellTyped t (some v) h = h

-- The fields behind the first one.
module _ (t : Ty) (fs : Fields) where
  abbrev Both : Val t × Vals fs → Type 0
  Both v = WellTyped t v.0 × WellTypedFields fs v.1

  behind-Keeps :
      (es : List (Entry (Read (Vals fs))))
      → Each (Keeps (WellTypedFields fs)) es
      → Each (Keeps Both) (behind_first_all (Val t) (Vals fs) es)
  behind-Keeps [] h = tt
  behind-Keeps (f ∷ es) (k, ks) = (
    record {
      decodes = λ optional (a, s) (p, q).
          after-Returns Both (WellTypedFields fs) (f.action.decode optional s) _
            (k.decodes optional s q) (λ s' q'. pure-Returns Both (a, s') (p, q'));
      sets_bool = λ b (a, s) (p, q). (p, k.sets_bool b s q);
      clears = λ (a, s) (p, q). (p, k.clears s q);
    },
    behind-Keeps es ks,
  )

  first-Keeps :
      ((optional : Bool) (v : Val t)
        → WellTyped t v
        → Returns (decode_from false t v optional) (WellTyped t))
      → Keeps Both (record {
        decode = λ optional (v, vs). decode_from false t v optional >>= λ v'. pure (v', vs);
        set_bool = λ b (v, vs). (set_bool_of t b v, vs);
        clear = λ (v, vs). (zero_value t, vs);
      })
  first-Keeps h = record {
    decodes = λ optional (v, vs) (p, q).
        after-Returns Both (WellTyped t) (decode_from false t v optional) _ (h optional v p)
          (λ v' p'. pure-Returns Both (v', vs) (p', q));
    sets_bool = λ b (v, vs) (p, q). (set_bool_of-WellTyped t b v p, q);
    clears = λ (v, vs) (p, q). (zero_value-WellTyped t, q);
  }

-- A pointer.
module _ (t : Ty) where
  pointer-Returns :
      (at_switch optional : Bool) (v : Option (Val t))
      → WellTyped (Types.ptr t) v
      → Returns (decode_from true t (pointee t v) false) (WellTyped t)
      → Returns (decode_from at_switch (Types.ptr t) v optional) (WellTyped (Types.ptr t))
  unfolding decode_from
  pointer-Returns true optional v h r d d' w e = throw-Returns (WellTyped (Types.ptr t)) _ d d' w e
  pointer-Returns false optional v h r d d' w e =
      elim (Bool-cases (not (is_option t) && peek_null d)) [
        | inl yes_ ↦
            if-Returns P optional _ _
              (λ o. bind-Returns P decode_null _ (λ u. pure-Returns P none tt))
              (λ o. throw-Returns P _) d d' w (rw yes_ at e)
        | inr no_ ↦
            after-Returns P (WellTyped t) (decode_from true t (pointee t v) false) _ r
              (λ x q. pure-Returns P (some x) q) d d' w (rw no_ at e)
      ]
    where
      P : Option (Val t) → Type 0
      P = WellTyped (Types.ptr t)

byte_slice-Returns :
    (at_switch optional : Bool) (v : Option Bytes)
    → Returns (decode_from at_switch Types.byte_slice v optional) (WellTyped Types.byte_slice)
unfolding decode_from
byte_slice-Returns at_switch optional v d d' w e = elim (Bool-cases (peek_null d)) [
  | inl yes_ ↦
      if-Returns P optional _ _ (λ o. bind-Returns P decode_null _ (λ u. pure-Returns P none tt))
        (λ o. throw-Returns P _) d d' w (rw yes_ at e)
  | inr no_ ↦
      after-Returns P LengthFits decode_bytes _ decode_bytes-Returns
        (λ x q. pure-Returns P (some x) q) d d' w (rw no_ at e)
]
  where
    P : Option Bytes → Type 0
    P = WellTyped Types.byte_slice

mutual
  unfolding decode_from

  decode_from-WellTyped :
      (t : Ty) (at_switch optional : Bool) (v : Val t)
      → WellTyped t v
      → Returns (decode_from at_switch t v optional) (WellTyped t)
  decode_from-WellTyped Types.bool s o v h = λ d d' a e. tt
  decode_from-WellTyped (Types.uint width) s o v h =
      bind-Returns (WellTyped (Types.uint width)) decode_uint _
        λ k. pure-Returns (WellTyped (Types.uint width)) _ (set_uint-WellTyped width k)
  decode_from-WellTyped (Types.int width) s o v h =
      bind-Returns (WellTyped (Types.int width)) decode_int _
        λ k. pure-Returns (WellTyped (Types.int width)) _ (set_int-WellTyped width k)
  decode_from-WellTyped Types.string s o v h = decode_text-Returns
  decode_from-WellTyped Types.raw s o v h = λ d d' a e. tt
  decode_from-WellTyped Types.byte_slice s o v h = byte_slice-Returns s o v
  decode_from-WellTyped Types.other_slice s o v h = λ d d' a e. tt
  decode_from-WellTyped (Types.byte_array n) s o v h = decode_bytes_fixed-Returns n
  decode_from-WellTyped Types.other_array s o v h = λ d d' a e. tt
  decode_from-WellTyped Types.unit s o v h = λ d d' a e. tt
  decode_from-WellTyped Types.null s o v h = λ d d' a e. tt
  decode_from-WellTyped (Types.struct fs) s o v h =
      decode_struct-Keeps (WellTypedFields fs) (read_entries fs) v (read_entries-Keeps fs) h
  decode_from-WellTyped (Types.ptr t) s o v h =
      pointer-Returns t s o v h
        (decode_from-WellTyped t true false (pointee t v) (pointee-WellTyped t v h))
  decode_from-WellTyped Types.other s o v h = λ d d' a e. tt

  read_entries-Keeps : (fs : Fields) → Each (Keeps (WellTypedFields fs)) (read_entries fs)
  read_entries-Keeps Types.no_fields = tt
  read_entries-Keeps (Types.field info t fs) = (
    first-Keeps t fs (λ optional v. decode_from-WellTyped t false optional v),
    behind-Keeps t fs (read_entries fs) (read_entries-Keeps fs),
  )

done-value : {A : Type 0} {a b : A} {d d' : Decoder} → done a d ≡ done b d' → a ≡ b
done-value h = cc

pub unmarshal-WellTyped :
    (t : Ty) (bs : Bytes) (old v : Val t)
    → WellTyped t old
    → unmarshal t bs old ≡ ok v
    → WellTyped t v
unfolding unmarshal decode_value
unmarshal-WellTyped t bs old v h e =
    go ((decode_value t old false >>= λ v'. finish >> pure v') (new_decoder bs)) refl e
  where
    go :
        (r : Run (Val t))
        → (decode_value t old false >>= λ v'. finish >> pure v') (new_decoder bs) ≡ r
        → elim r [ done v' d ↦ ok v' | fail e d ↦ err e ] ≡ ok v
        → WellTyped t v
    go (done w d) e h' =
        let (x, d₁, first, rest) =
          >>=-eq-done (decode_value t old false) _ (new_decoder bs) d w e in
        let (u, d₂, finished, last) = >>=-eq-done finish _ d₁ d w rest in
        subst (WellTyped t) {x = x} (done-value last ∙ ok-injective h')
          (decode_from-WellTyped t false false old h (new_decoder bs) d₁ x first)
    go (fail e d) r h' = absurd (cc)
