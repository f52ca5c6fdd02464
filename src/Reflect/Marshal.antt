-- ===== src/Reflect/Marshal.antt =====
-- Marshal and encodeValue of cbor/reflect.go.
use darkbio_crypto_go.Base.{
  none, some, Bool, true, false, List, [], ◌∷◌, ◌++◌, if◌then◌else◌, length,
}
use darkbio_crypto_go.Base.Int.{pos}
use darkbio_crypto_go.Cbor.Types.{
  Bytes, Result, ok, err, and_then, unexpected_nil, unsupported_type,
}
use darkbio_crypto_go.Cbor.Encoder.{
  Encoder, new_encoder, encode_uint, encode_int, encode_bytes, encode_text, encode_array_header,
  encode_map_header, encode_bool, encode_null,
}
use darkbio_crypto_go.Reflect.Types.{
  Ty, Fields, Val, Vals, bool, uint, int, string, raw, byte_slice, other_slice, byte_array,
  other_array, unit, null, struct, ptr, other, no_fields, field,
}
use darkbio_crypto_go.Reflect.Tags.{
  Entry, Keyed, Placed, has_exported, want_array, array_fields, map_fields, sort_fields,
  option_fields,
}

-- encodeValue at a field, with the optional flag to come; `truth` is the field's Bool().
pub record Write : Type 0 where
  pub encode : Bool → Encoder → Result Encoder
  pub truth : Bool

abbrev pub is_bool_kind : Ty → Bool
is_bool_kind bool = true
is_bool_kind _ = false

unfoldable pub encode_placed : List (Placed Write) → Encoder → Result Encoder
encode_placed [] e = ok e
encode_placed (f ∷ fs) e = and_then (f.action.encode f.optional e) λ e'. encode_placed fs e'

unfoldable pub encode_keyed : List (Keyed Write) → Encoder → Result Encoder
encode_keyed [] e = ok e
encode_keyed (f ∷ fs) e =
    and_then (f.action.encode f.optional (encode_int f.key e)) λ e'. encode_keyed fs e'

-- A struct whose fields have keys, or no fields at all.
unfoldable pub encode_map : List (Entry Write) → Encoder → Result Encoder
unfolding map_fields has_exported sort_fields encode_keyed
encode_map entries e = and_then (map_fields entries) λ fields. elim fields [
  | [] ↦ if has_exported entries then err unsupported_type else ok (encode_map_header (pos 0) e)
  | f ∷ fs ↦ encode_keyed (sort_fields (f ∷ fs)) (encode_map_header (pos (length (f ∷ fs))) e)
]

unfoldable pub encode_struct : List (Entry Write) → Encoder → Result Encoder
unfolding option_fields want_array array_fields encode_placed encode_map
encode_struct entries e = elim (option_fields entries) [
  | some (value, some_) ↦ if some_.truth then value.encode false e else ok (encode_null e)
  | none ↦
      if want_array entries
      then encode_placed (array_fields entries)
          (encode_array_header (pos (length (array_fields entries))) e)
      else encode_map entries e
]

unfoldable mutual
  pub encode_value : (t : Ty) → Val t → Bool → Encoder → Result Encoder
  encode_value bool v optional e = ok (encode_bool v e)
  encode_value (uint width) v optional e = ok (encode_uint v e)
  encode_value (int width) v optional e = ok (encode_int v e)
  encode_value string v optional e = encode_text v e
  encode_value raw v optional e = ok (e ++ v)
  encode_value byte_slice none optional e =
      if optional then ok (encode_null e) else err unexpected_nil
  encode_value byte_slice (some b) optional e = ok (encode_bytes b e)
  encode_value other_slice v optional e = err unsupported_type
  encode_value (byte_array n) v optional e = ok (encode_bytes v e)
  encode_value other_array v optional e = err unsupported_type
  encode_value unit v optional e = ok (encode_array_header (pos 0) e)
  encode_value null v optional e = ok (encode_null e)
  encode_value (struct fs) v optional e = encode_struct (write_entries fs v) e
  encode_value (ptr t) none optional e = if optional then ok (encode_null e) else err unexpected_nil
  encode_value (ptr t) (some v) optional e = encode_value t v false e
  encode_value other v optional e = err unsupported_type

  pub write_entries : (fs : Fields) → Vals fs → List (Entry Write)
  write_entries no_fields v = []
  write_entries (field info t fs) v =
      record {
        info = info;
        is_bool = is_bool_kind t;
        action = record { encode = encode_value t v.0; truth = truth_of t v.0 };
      }
      ∷ write_entries fs v.1

  pub truth_of : (t : Ty) → Val t → Bool
  truth_of bool v = v
  truth_of _ v = false

unfoldable pub marshal : (t : Ty) → Val t → Result Bytes
unfolding encode_value encode_struct
marshal t v = encode_value t v false new_encoder
