-- ===== src/Reflect/Encodable.antt =====
-- The values that Marshal (cbor/reflect.go) can turn into canonical CBOR.
use darkbio_crypto_go.Base.{ℕ, suc, none, some, List, length, All}
use darkbio_crypto_go.Base.Int.{IsInt64}
use darkbio_crypto_go.Cbor.Types.{Bytes, IsByte, IsLength, IsU64, Result, ok, err}
use darkbio_crypto_go.Reflect.Types.{
  Ty, Fields, Val, Vals, bool, uint, int, string, raw, byte_slice, other_slice, byte_array,
  other_array, unit, null, struct, ptr, other, no_fields, field,
}
use darkbio_crypto_go.Reflect.Tags.{Keyed, map_fields}
use darkbio_crypto_go.Reflect.Sorting.{Distinct}
use darkbio_crypto_go.Reflect.Marshal.{write_entries}
use Prim.Native.Nat.{max}

abbrev pub IsText : Bytes → Type 0
IsText b = All IsByte b × IsLength (length b)

-- The keys of a map struct are distinct, if its tags state keys.
abbrev pub DistinctKeys : {A : Type 0} → Result (List (Keyed A)) → Type 0
DistinctKeys (ok fields) = Distinct fields
DistinctKeys (err e) = Unit {0}

-- The numbers are those of Go's types, and no struct has two fields with one key. A Raw holds
-- whatever its owner put there, so a type with one is left out.
abbrev mutual
  pub Encodable : (t : Ty) → Val t → Type 0
  Encodable bool v = Unit {0}
  Encodable (uint width) v = IsU64 v
  Encodable (int width) v = IsInt64 v
  Encodable string v = IsText v
  Encodable raw v = ⊥
  Encodable byte_slice none = Unit {0}
  Encodable byte_slice (some b) = IsText b
  Encodable other_slice v = Unit {0}
  Encodable (byte_array n) v = IsText v
  Encodable other_array v = Unit {0}
  Encodable unit v = Unit {0}
  Encodable null v = Unit {0}
  Encodable (struct fs) v =
      EncodableFields fs v
      × IsLength (length (write_entries fs v))
      × DistinctKeys (map_fields (write_entries fs v))
  Encodable (ptr t) none = Unit {0}
  Encodable (ptr t) (some v) = Encodable t v
  Encodable other v = Unit {0}

  pub EncodableFields : (fs : Fields) → Vals fs → Type 0
  EncodableFields no_fields v = Unit {0}
  EncodableFields (field info t fs) v = Encodable t v.0 × EncodableFields fs v.1

-- How deeply the structs of a type nest.
abbrev mutual
  pub type_depth : Ty → ℕ
  type_depth (struct fs) = suc (fields_depth fs)
  type_depth (ptr t) = type_depth t
  type_depth _ = 1

  pub fields_depth : Fields → ℕ
  fields_depth no_fields = 0
  fields_depth (field info t fs) = max (type_depth t) (fields_depth fs)
