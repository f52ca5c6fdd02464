-- ===== src/Reflect/Tags.antt =====
-- The struct tags of cbor/reflect.go: wantArray, mapFields, arrayFields, structFields,
-- isOptionType. A struct is a list of entries; an entry is a field with what is done to it.
use darkbio_crypto_go.Base.{
  ℕ, ◌+◌, ◌*◌, ◌-◌, ◌^◌, Option, none, some, Bool, true, false, ◌&&◌, ◌||◌, not, List, [], ◌∷◌, leb,
  ltb, ◌==◌, if◌then◌else◌,
}
use darkbio_crypto_go.Base.Int.{ℤ, pos, negsuc}
use darkbio_crypto_go.Cbor.Types.{Bytes, Result, ok, err, unsupported_type, and_then}
use darkbio_crypto_go.Cbor.Verify.{map_key_cmp, is_lt}
use darkbio_crypto_go.Reflect.Types.{FieldInfo}

unfoldable pub bytes_eq : Bytes → Bytes → Bool
bytes_eq [] [] = true
bytes_eq [] (y ∷ ys) = false
bytes_eq (x ∷ xs) [] = false
bytes_eq (x ∷ xs) (y ∷ ys) = x == y && bytes_eq xs ys

-- strings.Split(tag, ","): the part before the first comma, and the parts behind it.
unfoldable pub split_commas : Bytes → Bytes × List Bytes
split_commas [] = ([], [])
split_commas (c ∷ cs) =
    let (first, rest) = split_commas cs in
    if c == b',' then ([], first ∷ rest) else (c ∷ first, rest)

abbrev pub array_word : Bytes
array_word = b'a' ∷ b'r' ∷ b'r' ∷ b'a' ∷ b'y' ∷ []

abbrev pub key_word : Bytes
key_word = b'k' ∷ b'e' ∷ b'y' ∷ []

abbrev pub optional_word : Bytes
optional_word = b'o' ∷ b'p' ∷ b't' ∷ b'i' ∷ b'o' ∷ b'n' ∷ b'a' ∷ b'l' ∷ []

abbrev pub value_name : Bytes
value_name = b'V' ∷ b'a' ∷ b'l' ∷ b'u' ∷ b'e' ∷ []

abbrev pub some_name : Bytes
some_name = b'S' ∷ b'o' ∷ b'm' ∷ b'e' ∷ []

-- One of parts[1:] is the word.
unfoldable pub has_word : Bytes → List Bytes → Bool
unfolding bytes_eq
has_word word [] = false
has_word word (part ∷ parts) = bytes_eq part word || has_word word parts

unfoldable pub tag_has : Bytes → Bytes → Bool
unfolding has_word split_commas
tag_has word tag = has_word word (split_commas tag).1

-- strconv.ParseInt(s, 10, 64)
unfoldable pub digits_value : ℕ → Bytes → Option ℕ
digits_value acc [] = some acc
digits_value acc (c ∷ cs) =
    let rest = digits_value (acc * 10 + (c - b'0')) cs in
    if leb b'0' c && leb c b'9' then rest else none

unfoldable pub parse_positive : Bytes → Option ℤ
unfolding digits_value
parse_positive [] = none
parse_positive (d ∷ ds) = elim (digits_value 0 (d ∷ ds)) [
  | none ↦ none
  | some n ↦ if ltb n (2 ^ 63) then some (pos n) else none
]

unfoldable pub parse_negative : Bytes → Option ℤ
unfolding digits_value
parse_negative [] = none
parse_negative (d ∷ ds) = elim (digits_value 0 (d ∷ ds)) [
  | none ↦ none
  | some n ↦ if n == 0 then some (pos 0) else if leb n (2 ^ 63) then some (negsuc (n - 1)) else none
]

unfoldable pub parse_int : Bytes → Option ℤ
unfolding parse_positive parse_negative
parse_int [] = none
parse_int (c ∷ cs) =
    if c == b'-'
    then parse_negative cs
    else if c == b'+'
    then parse_positive cs
    else parse_positive (c ∷ cs)

-- The key of an exported field whose tag has the word "key": an error where it is no integer.
unfoldable pub field_key : FieldInfo → Result (Option ℤ)
unfolding tag_has parse_int
field_key info =
    if not info.exported
    then ok none
    else if not (tag_has key_word info.tag)
    then ok none
    else elim (parse_int (split_commas info.tag).0) [
      | none ↦ err unsupported_type
      | some k ↦ ok (some k)
    ]

-- A field of a struct with its action, and the value of the field where its kind is Bool.
pub record Entry (A : Type 0) : Type 0 where
  pub info : FieldInfo
  pub is_bool : Bool
  pub action : A

-- fieldInfo: the action of a field of a map, with its key and its optional flag.
pub record Keyed (A : Type 0) : Type 0 where
  pub key : ℤ
  pub optional : Bool
  pub action : A

-- arrayFieldInfo
pub record Placed (A : Type 0) : Type 0 where
  pub optional : Bool
  pub action : A

module _ {A : Type 0} where
  -- len(structFields(t)) > 0
  unfoldable pub has_exported : List (Entry A) → Bool
  has_exported [] = false
  has_exported (f ∷ fs) = f.info.exported || has_exported fs

  unfoldable pub want_array : List (Entry A) → Bool
  unfolding tag_has
  want_array [] = false
  want_array (f ∷ fs) = tag_has array_word f.info.tag || want_array fs

  unfoldable pub array_fields : List (Entry A) → List (Placed A)
  unfolding tag_has
  array_fields [] = []
  array_fields (f ∷ fs) =
      let rest = array_fields fs in
      if f.info.exported
      then record { optional = tag_has optional_word f.info.tag; action = f.action } ∷ rest
      else rest

  -- A field without a key is passed over.
  unfoldable pub with_key : Entry A → Option ℤ → List (Keyed A) → List (Keyed A)
  unfolding tag_has
  with_key f none rest = rest
  with_key f (some k) rest =
      record { key = k; optional = tag_has optional_word f.info.tag; action = f.action } ∷ rest

  unfoldable pub map_fields : List (Entry A) → Result (List (Keyed A))
  unfolding field_key with_key
  map_fields [] = ok []
  map_fields (f ∷ fs) =
      and_then (field_key f.info) λ key. and_then (map_fields fs) λ rest. ok (with_key f key rest)

  -- The order of slices.SortFunc by mapKeyCmp: ascending, and stable (as SortFunc is up to twelve
  -- fields; beyond that only the places of equal keys could differ).
  unfoldable pub insert_field : Keyed A → List (Keyed A) → List (Keyed A)
  insert_field f [] = f ∷ []
  insert_field f (g ∷ gs) =
      if is_lt (map_key_cmp g.key f.key) then g ∷ insert_field f gs else f ∷ g ∷ gs

  unfoldable pub sort_fields : List (Keyed A) → List (Keyed A)
  unfolding insert_field
  sort_fields [] = []
  sort_fields (f ∷ fs) = insert_field f (sort_fields fs)

  -- Two fields, Value and a bool Some: the two actions.
  unfoldable pub option_fields : List (Entry A) → Option (A × A)
  unfolding bytes_eq
  option_fields (f ∷ g ∷ []) =
      if bytes_eq f.info.name value_name && bytes_eq g.info.name some_name && g.is_bool
      then some (f.action, g.action)
      else none
  option_fields _ = none
