-- ===== src/Reflect/Output.antt =====
-- Whatever Marshal (cbor/reflect.go) returns is canonical CBOR, which Verify accepts.
use darkbio_crypto_go.Base.{
  ℕ, zero, suc, ◌≤◌, ◌<◌, ◌≡◌, refl, sym, ap, ◌∙◌, subst, none, some, Bool, true, false, List, [],
  ◌∷◌, ◌++◌, length, inl, inr, Bool-cases, Option-cases, arith, append_assoc, append-nil,
  if◌then◌else◌,
}
use darkbio_crypto_go.Base.Int.{ℤ, pos, negsuc, IsInt64}
use darkbio_crypto_go.Cbor.Types.{
  Bytes, IsLength, IsU64, Result, ok, err, unexpected_nil, ok-injective,
}
use darkbio_crypto_go.Cbor.Layout.{header, encode_length-header}
use darkbio_crypto_go.Cbor.Utf8
use darkbio_crypto_go.Cbor.Encoder.{
  Encoder, encode_uint, encode_int, encode_bytes, encode_text, encode_array_header, encode_bool,
  encode_null,
}
use darkbio_crypto_go.Cbor.Methods.{encode_int_appends}
use darkbio_crypto_go.Cbor.Item.{
  Item, uint, nint, bytes, text, array, bool, null, nil, encoding, Valid, depth,
}
use darkbio_crypto_go.Reflect.Types
use darkbio_crypto_go.Reflect.Types.{Ty, Fields, Val, Vals}
use darkbio_crypto_go.Reflect.Tags.{Entry, want_array, map_fields, option_fields}
use darkbio_crypto_go.Reflect.Sorting.{Each}
use darkbio_crypto_go.Reflect.Marshal.{Write, encode_struct, encode_value, write_entries}
use darkbio_crypto_go.Reflect.Encodable.{
  Encodable, EncodableFields, IsText, DistinctKeys, type_depth, fields_depth,
}
use darkbio_crypto_go.Reflect.Canonical.{
  encode_array_header-header, Appends, Writes, array-Appends, encode_map-Appends,
}

option_fields-Writes :
    (n : ℕ) (es : List (Entry Write)) (a b : Write)
    → Each (Writes n) es
    → option_fields es ≡ some (a, b)
    → Writes n a
unfolding option_fields
option_fields-Writes n [] a b h e = cc
option_fields-Writes n (f ∷ []) a b h e = cc
option_fields-Writes n (f ∷ g ∷ h' ∷ r) a b h e = cc
option_fields-Writes n (f ∷ g ∷ []) a b (w, h) e =
    subst (Writes n) {x = f.action} {y = a} (ground arith) w

null-Appends : (n : ℕ) (e : Encoder) → Appends (suc n) e (encode_null e)
unfolding encode_null encoding
null-Appends n e = (null, tt, omega arith, refl)

encode_struct-Appends :
    (n : ℕ) (entries : List (Entry Write)) (e e' : Encoder)
    → Each (Writes n) entries
    → IsLength (length entries)
    → DistinctKeys (map_fields entries)
    → encode_struct entries e ≡ ok e'
    → Appends (suc n) e e'
unfolding encode_struct
encode_struct-Appends n entries e e' writes small distinct r =
    elim (Option-cases (option_fields entries)) [
      | inl plain ↦ elim (Bool-cases (want_array entries)) [
        | inl yes_ ↦
            array-Appends n entries writes small e e' (rw (plain, encode_struct, yes_) at r)
        | inr no_ ↦
            encode_map-Appends n entries writes small e e' distinct
              (rw (plain, encode_struct, no_) at r)
      ]
      | inr ((value, some_), option) ↦ elim (Bool-cases some_.truth) [
        | inl yes_ ↦
            let (x, v, d, s) =
              option_fields-Writes n entries value some_ writes option false e e'
                (rw (option, encode_struct, yes_) at r) in
            (x, v, omega arith, s)
        | inr no_ ↦
            subst (Appends (suc n) e) (ok-injective (rw (option, encode_struct, no_) at r))
              (null-Appends n e)
      ]
    ]

-- The scalars.
Appends-subst :
    (n : ℕ) (x : Item) (e e₁ e' : Encoder)
    → Valid x
    → depth x ≤ n
    → e₁ ≡ e ++ encoding x
    → Result.ok e₁ ≡ ok e'
    → Appends n e e'
Appends-subst n x e e₁ e' v d s r = (x, v, d, sym (ok-injective r) ∙ s)

bytes-Appends :
    (n : ℕ) (b : Bytes) (e e' : Encoder)
    → 0 < n
    → IsText b
    → Result.ok (encode_bytes b e) ≡ ok e'
    → Appends n e e'
unfolding encode_bytes encoding
bytes-Appends n b e e' h v r =
    Appends-subst n (bytes b) e _ e' v h
      (rw (encode_length-header 2 (length b) e (omega arith) (omega arith)) (append_assoc e _ b)) r

text-Appends :
    (n : ℕ) (t : Bytes) (e e' : Encoder)
    → 0 < n
    → IsText t
    → encode_text t e ≡ ok e'
    → Appends n e e'
unfolding encode_text encoding
text-Appends n t e e' h (b, len) r = elim (Bool-cases (Utf8.valid t)) [
  | inl good ↦
      Appends-subst n (text t) e _ e' (b, len, good) h
        (rw (encode_length-header 3 (length t) e (omega arith) (omega arith)) (append_assoc e _ t))
        (rw good at r)
  | inr bad ↦ absurd (cc (rw bad at r))
]

uint-Appends :
    (n k : ℕ) (e e' : Encoder)
    → 0 < n
    → IsU64 k
    → Result.ok (encode_uint k e) ≡ ok e'
    → Appends n e e'
unfolding encode_uint encoding
uint-Appends n k e e' h v r =
    Appends-subst n (uint k) e _ e' v h (encode_length-header 0 k e (omega arith) v) r

int-Appends :
    (n : ℕ) (k : ℤ) (e e' : Encoder)
    → 0 < n
    → IsInt64 k
    → Result.ok (encode_int k e) ≡ ok e'
    → Appends n e e'
unfolding encoding
int-Appends n (pos k) e e' h v r =
    Appends-subst n (uint k) e _ e' (omega arith) h (encode_int_appends (pos k) e v) r
int-Appends n (negsuc k) e e' h v r =
    Appends-subst n (nint k) e _ e' (omega arith) h (encode_int_appends (negsuc k) e v) r

bool-Appends :
    (n : ℕ) (b : Bool) (e e' : Encoder)
    → 0 < n
    → Result.ok (encode_bool b e) ≡ ok e'
    → Appends n e e'
unfolding encode_bool encoding
bool-Appends n true e e' h r = Appends-subst n (bool true) e _ e' tt h refl r
bool-Appends n false e e' h r = Appends-subst n (bool false) e _ e' tt h refl r

nil-Appends :
    (n : ℕ) (optional : Bool) (e e' : Encoder)
    → 0 < n
    → (if optional then ok (encode_null e) else err unexpected_nil) ≡ ok e'
    → Appends n e e'
unfolding encode_null encoding
nil-Appends n true e e' h r = Appends-subst n null e _ e' tt h refl r
nil-Appends n false e e' h r = cc

empty-Appends :
    (n : ℕ) (e e' : Encoder)
    → 0 < n
    → Result.ok (encode_array_header (pos 0) e) ≡ ok e'
    → Appends n e e'
unfolding encoding
empty-Appends n e e' h r =
    Appends-subst n (array nil) e _ e' (omega arith) (omega arith)
      (encode_array_header-header 0 e (omega arith)
        ∙ sym (ap (λ (b : Bytes). e ++ b) (append-nil (header 4 0))))
      r

type_depth_pos : (t : Ty) → 0 < type_depth t
type_depth_pos (Types.ptr t) = type_depth_pos t
type_depth_pos (Types.struct fs) = omega arith
type_depth_pos _ = omega arith

mutual
  unfolding encode_value

  value-Appends :
      (t : Ty) (v : Val t) (optional : Bool) (n : ℕ) (e e' : Encoder)
      → Encodable t v
      → type_depth t ≤ n
      → encode_value t v optional e ≡ ok e'
      → Appends n e e'
  value-Appends Types.bool v optional n e e' h d r = bool-Appends n v e e' d r
  value-Appends (Types.uint width) v optional n e e' h d r = uint-Appends n v e e' d h r
  value-Appends (Types.int width) v optional n e e' h d r = int-Appends n v e e' d h r
  value-Appends Types.string v optional n e e' h d r = text-Appends n v e e' d h r
  value-Appends Types.raw v optional n e e' h d r = absurd h
  value-Appends Types.byte_slice none optional n e e' h d r = nil-Appends n optional e e' d r
  value-Appends Types.byte_slice (some b) optional n e e' h d r = bytes-Appends n b e e' d h r
  value-Appends Types.other_slice v optional n e e' h d r = cc
  value-Appends (Types.byte_array k) v optional n e e' h d r = bytes-Appends n v e e' d h r
  value-Appends Types.other_array v optional n e e' h d r = cc
  value-Appends Types.unit v optional n e e' h d r = empty-Appends n e e' d r
  value-Appends Types.null v optional n e e' h d r = nil-Appends n true e e' d r
  value-Appends (Types.struct fs) v optional zero e e' h d r = absurd (omega arith)
  value-Appends (Types.struct fs) v optional (suc n) e e' (fields, small, distinct) d r =
      encode_struct-Appends n (write_entries fs v) e e' (entries-Writes fs v n fields (omega arith))
        small distinct r
  value-Appends (Types.ptr t) none optional n e e' h d r =
      nil-Appends n optional e e' (omega (arith, type_depth_pos t)) r
  value-Appends (Types.ptr t) (some v) optional n e e' h d r = value-Appends t v false n e e' h d r
  value-Appends Types.other v optional n e e' h d r = cc

  entries-Writes :
      (fs : Fields) (v : Vals fs) (n : ℕ)
      → EncodableFields fs v
      → fields_depth fs ≤ n
      → Each (Writes n) (write_entries fs v)
  entries-Writes Types.no_fields v n h d = tt
  entries-Writes (Types.field info t fs) v n (h, hs) d = (
    λ optional e e' r. value-Appends t v.0 optional n e e' h (omega arith) r,
    entries-Writes fs v.1 n hs (omega arith),
  )
