-- ===== src/Reflect/Plain.antt =====
-- The values that Unmarshal reads back as they were when Marshal wrote them (cbor/reflect.go).
use darkbio_crypto_go.Base.{
  ◌^◌, ◌<◌, ◌≡◌, none, some, Bool, true, false, length, ◌⊎◌, if◌then◌else◌,
}
use darkbio_crypto_go.Base.Int.{IsInt64}
use darkbio_crypto_go.Cbor.Types.{IsLength, IsU64, ok}
use darkbio_crypto_go.Cbor.Utf8
use darkbio_crypto_go.Reflect.Types.{
  FieldInfo, Ty, Fields, Val, Vals, bool, uint, int, string, raw, byte_slice, other_slice,
  byte_array, other_array, unit, null, struct, ptr, other, no_fields, field,
}
use darkbio_crypto_go.Reflect.Tags.{
  tag_has, optional_word, has_exported, want_array, array_fields, map_fields, option_fields,
}
use darkbio_crypto_go.Reflect.Unmarshal.{type_entries, is_option}
use darkbio_crypto_go.Reflect.Numbers.{InWidth}
use darkbio_crypto_go.Reflect.Sorting.{Ascending}
use darkbio_crypto_go.Reflect.Shape.{keyed_fields, key_of}

-- A type with one value, as struct{} is: a field that is passed over must have one, since nothing
-- of it is written.
abbrev pub Blank : Ty → Type 0
Blank t = (a b : Val t) → a ≡ b

abbrev pub is_optional : FieldInfo → Bool
is_optional info = tag_has optional_word info.tag

-- A struct that is written as an array, or as a map: the tags are sound, and the keys of a map stand
-- in their order.
abbrev pub ArrayLayout : Fields → Type 0
ArrayLayout fs =
    (want_array (type_entries fs) ≡ true) × IsLength (length (array_fields (type_entries fs)))

abbrev pub MapLayout : Fields → Type 0
MapLayout fs =
    (want_array (type_entries fs) ≡ false)
    × (map_fields (type_entries fs) ≡ ok (keyed_fields (type_entries fs)))
    × IsLength (length (keyed_fields (type_entries fs)))
    × Ascending none (keyed_fields (type_entries fs))
    × ((has_exported (type_entries fs) ≡ false) ⊎ (0 < length (keyed_fields (type_entries fs))))

-- The values with numbers and lengths of Go in their range, texts in UTF-8, and no nil where it is
-- not optional. Left out are Raw, whose owner put anything there, a pointer to a pointer, a Null or
-- an Option struct, and Option structs.
-- With `at_switch` the value is what a pointer points to.
abbrev mutual
  pub Plain : Bool → (t : Ty) → Val t → Bool → Type 0
  Plain at_switch bool v optional = Unit {0}
  Plain at_switch (uint width) v optional = IsU64 v × (v < 2 ^ width)
  Plain at_switch (int width) v optional = IsInt64 v × InWidth width v
  Plain at_switch string v optional = IsLength (length v) × (Utf8.valid v ≡ true)
  Plain at_switch raw v optional = ⊥
  Plain at_switch byte_slice none optional = (at_switch ≡ false) × (optional ≡ true)
  Plain at_switch byte_slice (some b) optional = IsLength (length b)
  Plain at_switch other_slice v optional = ⊥
  Plain at_switch (byte_array n) v optional = IsLength (length v) × (length v ≡ n)
  Plain at_switch other_array v optional = ⊥
  Plain at_switch unit v optional = Unit {0}
  Plain at_switch null v optional = at_switch ≡ false
  Plain at_switch (struct fs) v optional =
      (option_fields (type_entries fs) ≡ none)
      × ((ArrayLayout fs × PlainArray fs v) ⊎ (MapLayout fs × PlainMap fs v))
  Plain at_switch (ptr t) none optional =
      (at_switch ≡ false) × (is_option t ≡ false) × (optional ≡ true)
  Plain at_switch (ptr t) (some v) optional =
      (at_switch ≡ false) × (is_option t ≡ false) × Plain true t v false
  Plain at_switch other v optional = ⊥

  pub PlainArray : (fs : Fields) → Vals fs → Type 0
  PlainArray no_fields v = Unit {0}
  PlainArray (field info t fs) v =
      (if info.exported then Plain false t v.0 (is_optional info) else Blank t) × PlainArray fs v.1

  pub PlainMap : (fs : Fields) → Vals fs → Type 0
  PlainMap no_fields v = Unit {0}
  PlainMap (field info t fs) v =
      elim (key_of info) [ none ↦ Blank t | some k ↦ Plain false t v.0 (is_optional info) ]
      × PlainMap fs v.1
