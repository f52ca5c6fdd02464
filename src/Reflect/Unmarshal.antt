-- ===== src/Reflect/Unmarshal.antt =====
-- Unmarshal and decodeValue of cbor/reflect.go. A value is decoded into a variable, so the old
-- value is an argument and the new one the result; what a failed call leaves in the variable is not
-- kept.
use darkbio_crypto_go.Base.{
  ℕ, zero, suc, ◌-◌, ◌^◌, ◌%◌, Option, none, some, Bool, true, false, ◌||◌, ◌&&◌, not, List, [],
  ◌∷◌, if◌then◌else◌, length, ltb, ◌==◌, take, drop, Ordering,
}
use darkbio_crypto_go.Base.Int.{ℤ, pos, negsuc}
use darkbio_crypto_go.Cbor.Types.{
  Bytes, Result, ok, err, unexpected_null, unsupported_type, unexpected_item_count,
  duplicate_map_key, invalid_map_key_order, max_int, max_depth,
}
use darkbio_crypto_go.Cbor.Decoder.{
  M, done, fail, ◌>>=◌, ◌>>◌, pure, throw, new_decoder, finish, peek_null, decode_uint, decode_int,
  decode_bytes, decode_bytes_fixed, decode_text, decode_array_header, decode_map_header,
  decode_bool, decode_null,
}
use darkbio_crypto_go.Cbor.Verify.{skip_object, map_key_cmp}
use darkbio_crypto_go.Reflect.Types.{
  Ty, Fields, Val, Vals, bool, uint, int, string, raw, byte_slice, other_slice, byte_array,
  other_array, unit, null, struct, ptr, other, no_fields, field, zero_value,
}
use darkbio_crypto_go.Reflect.Tags.{
  Entry, Keyed, Placed, has_exported, want_array, array_fields, map_fields, option_fields,
}
use darkbio_crypto_go.Reflect.Marshal.{is_bool_kind}

-- SetUint and SetInt keep the low bits of the variable's width.
unfoldable pub set_uint : ℕ → ℕ → ℕ
set_uint width v = v % 2 ^ width

unfoldable pub set_int : ℕ → ℤ → ℤ
set_int width (pos n) =
    if ltb (n % 2 ^ width) (2 ^ (width - 1))
    then pos (n % 2 ^ width)
    else negsuc (2 ^ width - n % 2 ^ width - 1)
set_int width (negsuc n) =
    if ltb (n % 2 ^ width) (2 ^ (width - 1))
    then negsuc (n % 2 ^ width)
    else pos (2 ^ width - 1 - n % 2 ^ width)

-- int(length) != n for a uint64 `length` and a small `n`.
abbrev pub count_differs : ℕ → ℕ → Bool
count_differs length n = ltb max_int length || not (length == n)

-- skipObject, and the bytes that it passed over.
unfoldable pub capture : M Bytes
capture d = elim (skip_object max_depth d) [
  | done _ d' ↦ done (take (d'.cursor - d.cursor) (drop d.cursor d.data_)) d'
  | fail e d' ↦ fail e d'
]

-- What is done to a field of a struct in the state `S`: decodeValue with the optional flag to come,
-- SetBool, and Set to the zero value.
pub record Read (S : Type 0) : Type 0 where
  pub decode : Bool → S → M S
  pub set_bool : Bool → S → S
  pub clear : S → S

-- The same for a field further back, behind a field with the value `a`.
abbrev pub behind_first : (A S : Type 0) → Entry (Read S) → Entry (Read (A × S))
behind_first A S f = record {
  info = f.info;
  is_bool = f.is_bool;
  action = record {
    decode = λ optional (a, s). f.action.decode optional s >>= λ s'. pure (a, s');
    set_bool = λ b (a, s). (a, f.action.set_bool b s);
    clear = λ (a, s). (a, f.action.clear s);
  };
}

abbrev pub behind_first_all : (A S : Type 0) → List (Entry (Read S)) → List (Entry (Read (A × S)))
behind_first_all A S [] = []
behind_first_all A S (f ∷ fs) = behind_first A S f ∷ behind_first_all A S fs

abbrev pub same_key : ℤ → ℤ → Bool
same_key (pos m) (pos n) = m == n
same_key (negsuc m) (negsuc n) = m == n
same_key _ _ = false

-- The test on the key before this one.
unfoldable pub check_key : Option ℤ → ℤ → M (Unit {0})
check_key none key = pure tt
check_key (some prev) key = elim (map_key_cmp prev key) [
  | Ordering.eq ↦ throw duplicate_map_key
  | Ordering.gt ↦ throw invalid_map_key_order
  | Ordering.lt ↦ pure tt
]

module _ {S : Type 0} where
  unfoldable pub decode_placed : List (Placed (Read S)) → S → M S
  decode_placed [] s = pure s
  decode_placed (f ∷ fs) s = f.action.decode f.optional s >>= λ s'. decode_placed fs s'

  -- keyToField: of two fields with one key the later one is kept.
  unfoldable pub find_field : ℤ → List (Keyed (Read S)) → Option (Keyed (Read S))
  find_field key [] = none
  find_field key (f ∷ fs) = elim (find_field key fs) [
    | some g ↦ some g
    | none ↦ if same_key f.key key then some f else none
  ]

  unfoldable pub decode_pairs : List (Keyed (Read S)) → ℕ → Option ℤ → S → M S
  unfolding find_field check_key
  decode_pairs fields zero prev s = pure s
  decode_pairs fields (suc n) prev s = decode_int >>= λ key.
      check_key prev key >> elim (find_field key fields) [
        | none ↦ throw unsupported_type
        | some f ↦ f.action.decode f.optional s >>= λ s'. decode_pairs fields n (some key) s'
      ]

  unfoldable pub decode_map : List (Entry (Read S)) → S → M S
  unfolding map_fields has_exported decode_pairs
  decode_map entries s = elim (map_fields entries) [
    | err e ↦ throw e
    | ok fields ↦
        if length fields == 0 && has_exported entries
        then throw unsupported_type
        else decode_map_header >>= λ count.
            if count_differs count (length fields)
            then throw unexpected_item_count
            else decode_pairs fields count none s
  ]

  unfoldable pub decode_option : Read S → Read S → S → M S
  decode_option value some_ s d =
      if peek_null d
      then (decode_null >>= λ _. pure (value.clear (some_.set_bool false s))) d
      else (value.decode false s >>= λ s'. pure (some_.set_bool true s')) d

  unfoldable pub decode_struct : List (Entry (Read S)) → S → M S
  unfolding option_fields want_array array_fields decode_placed decode_map decode_option
  decode_struct entries s = elim (option_fields entries) [
    | some (value, some_) ↦ decode_option value some_ s
    | none ↦
        if want_array entries
        then (decode_array_header >>= λ count.
            if count_differs count (length (array_fields entries))
            then throw unexpected_item_count
            else decode_placed (array_fields entries) s)
        else decode_map entries s
  ]

-- isOptionType, of the type behind a pointer.
abbrev pub type_entries : Fields → List (Entry (Unit {0}))
type_entries no_fields = []
type_entries (field info t fs) =
    record { info = info; is_bool = is_bool_kind t; action = tt } ∷ type_entries fs

unfoldable pub is_option : Ty → Bool
unfolding option_fields
is_option (struct fs) = elim (option_fields (type_entries fs)) [ none ↦ false | some _ ↦ true ]
is_option _ = false

unfoldable pub set_bool_of : (t : Ty) → Bool → Val t → Val t
set_bool_of bool b v = b
set_bool_of _ b v = v

abbrev pub pointee : (t : Ty) → Option (Val t) → Val t
pointee t none = zero_value t
pointee t (some v) = v

-- With `at_switch` the call stands at the switch on the kind, which is where decodeValue goes on
-- with what a pointer points to; otherwise it stands at the start.
unfoldable mutual
  pub decode_from : Bool → (t : Ty) → Val t → Bool → M (Val t)
  decode_from at_switch bool v optional = decode_bool
  decode_from at_switch (uint width) v optional = decode_uint >>= λ val. pure (set_uint width val)
  decode_from at_switch (int width) v optional = decode_int >>= λ val. pure (set_int width val)
  decode_from at_switch string v optional = decode_text
  decode_from at_switch raw v optional = capture
  decode_from at_switch byte_slice v optional = λ d.
      if peek_null d
      then (if optional then (decode_null >>= λ _. pure none) else throw unexpected_null) d
      else (decode_bytes >>= λ b. pure (some b)) d
  decode_from at_switch other_slice v optional = throw unsupported_type
  decode_from at_switch (byte_array n) v optional = decode_bytes_fixed n
  decode_from at_switch other_array v optional = throw unsupported_type
  decode_from at_switch unit v optional = decode_array_header >>= λ count.
      if not (count == 0) then throw unexpected_item_count else pure tt
  decode_from at_switch null v optional = decode_null
  decode_from at_switch (struct fs) v optional = decode_struct (read_entries fs) v
  decode_from at_switch (ptr t) v optional =
      let inner = decode_from true t (pointee t v) false >>= λ v'. pure (some v') in
      if at_switch then throw unsupported_type else λ d.
      if not (is_option t) && peek_null d
      then (if optional then (decode_null >>= λ _. pure none) else throw unexpected_null) d
      else inner d
  decode_from at_switch other v optional = throw unsupported_type

  pub read_entries : (fs : Fields) → List (Entry (Read (Vals fs)))
  read_entries no_fields = []
  read_entries (field info t fs) =
      record {
        info = info;
        is_bool = is_bool_kind t;
        action = record {
          decode = λ optional (v, vs). decode_from false t v optional >>= λ v'. pure (v', vs);
          set_bool = λ b (v, vs). (set_bool_of t b v, vs);
          clear = λ (v, vs). (zero_value t, vs);
        };
      }
      ∷ behind_first_all (Val t) (Vals fs) (read_entries fs)

unfoldable pub decode_value : (t : Ty) → Val t → Bool → M (Val t)
unfolding decode_from
decode_value = decode_from false

unfoldable pub unmarshal : (t : Ty) → Bytes → Val t → Result (Val t)
unfolding decode_value
unmarshal t bytes v =
    elim ((decode_value t v false >>= λ v'. finish >> pure v') (new_decoder bytes)) [
      | done v' d ↦ ok v'
      | fail e d ↦ err e
    ]
