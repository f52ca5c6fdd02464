-- ===== src/Reflect/Layouts.antt =====
-- What encodeValue writes, decodeValue reads (cbor/reflect.go): structs, from their fields.
use darkbio_crypto_go.Base.{
  ℕ, ◌<◌, ◌≡◌, refl, sym, ap, ◌∙◌, subst, ◌⊎◌, Option, none, some, Bool, true, false, List, [], ◌∷◌,
  ◌++◌, length, inl, inr, arith, append_assoc, append-nil, ◌==◌, ◌&&◌, gt→compare,
}
use darkbio_crypto_go.Base.Int.{ℤ, pos, IsInt64}
use darkbio_crypto_go.Cbor.Types.{Bytes, IsLength, ok}
use darkbio_crypto_go.Cbor.KeyOrder.{rank, map_key_cmp-rank}
use darkbio_crypto_go.Cbor.Verify.{is_lt}
use darkbio_crypto_go.Cbor.Layout.{header}
use darkbio_crypto_go.Cbor.Encoder.{Encoder, encode_map_header}
use darkbio_crypto_go.Cbor.Decoder.{
  done, ◌>>=◌, pure, advance, decode_int, decode_array_header, decode_map_header,
}
use darkbio_crypto_go.Cbor.Cursor.{Reads, Reads-bind}
use darkbio_crypto_go.Cbor.Methods.{int_encoding, encode_int_appends, decode_int-Reads}
use darkbio_crypto_go.Reflect.Types
use darkbio_crypto_go.Reflect.Types.{FieldInfo, Ty, Fields, Val, Vals, field, struct}
use darkbio_crypto_go.Reflect.Tags.{
  Entry, Keyed, array_fields, map_fields, sort_fields, insert_field, has_exported, option_fields,
  with_key,
}
use darkbio_crypto_go.Reflect.Marshal.{
  Write, encode_value, encode_placed, encode_keyed, encode_struct, encode_map, write_entries,
}
use darkbio_crypto_go.Reflect.Unmarshal.{
  behind_first_all, decode_from, decode_placed, decode_struct, decode_map, decode_pairs,
  read_entries, type_entries, count_differs,
}
use darkbio_crypto_go.Reflect.Sorting.{EachKeyed, Ascending}
use darkbio_crypto_go.Reflect.Canonical.{encode_array_header-header, encode_map_header-header}
use darkbio_crypto_go.Reflect.Shape.{
  SameShape, keyed_fields, keyed_fields-IsInt64, key_of, key_of-IsInt64, write_entries-SameShape,
  read_entries-SameShape, option_fields-SameShape, want_array-SameShape, has_exported-SameShape,
  length-array_fields-SameShape, map_fields-SameShape, length-keyed_fields-SameShape,
  Ascending-SameShape,
}
use darkbio_crypto_go.Reflect.Following.{
  in_order, placed_behind, in_order_behind, keeping-Reads, Ascending-Found, decode_pairs-in_order,
  same_key_refl,
}
use darkbio_crypto_go.Reflect.Plain.{Blank, is_optional, ArrayLayout, MapLayout}
use darkbio_crypto_go.Reflect.Trip.{
  Trip, header-NotNull, pure-Reads, map-Reads, decode_array_header-Reads, decode_map_header-Reads,
}

count_differs_self : (n : ℕ) → IsLength n → count_differs n n ≡ false
count_differs_self n h = ground arith

-- The fields of a struct in an array.
pub record ArrayTrip (fs : Fields) (v : Vals fs) : Type 0 where
  pub enc : Bytes
  pub writes : (e : Encoder) → encode_placed (array_fields (write_entries fs v)) e ≡ ok (e ++ enc)
  pub reads : (old : Vals fs) → Reads (decode_placed (array_fields (read_entries fs)) old) enc v

-- The fields of a struct in a map, in the order in which they are declared.
pub record MapTrip (fs : Fields) (v : Vals fs) : Type 0 where
  pub enc : Bytes
  pub writes : (e : Encoder) → encode_keyed (keyed_fields (write_entries fs v)) e ≡ ok (e ++ enc)
  pub reads : (old : Vals fs) → Reads (in_order (keyed_fields (read_entries fs)) old) enc v

pub array_nil-Trip : ArrayTrip Types.no_fields tt
unfolding encode_placed write_entries array_fields decode_placed read_entries
array_nil-Trip = record {
  enc = [];
  writes = λ e. ap ok (sym (append-nil e));
  reads = λ old. pure-Reads tt;
}

pub map_nil-Trip : MapTrip Types.no_fields tt
unfolding encode_keyed write_entries keyed_fields in_order read_entries
map_nil-Trip = record {
  enc = [];
  writes = λ e. ap ok (sym (append-nil e));
  reads = λ old. pure-Reads tt;
}

module _ (info : FieldInfo) (t : Ty) (fs : Fields) (v : Val t) (vs : Vals fs) where
  -- The first field, in front of others that stay as they are.
  first-Reads :
      (old : Val t) (olds : Vals fs) (trip : Trip false t v (is_optional info))
      → Reads {A = Val t × Vals fs}
          (decode_from false t old (is_optional info) >>= λ v'. pure (v', olds))
          trip.enc
          (v, olds)
  first-Reads old olds trip =
      map-Reads (decode_from false t old (is_optional info)) (λ (x : Val t). (x, olds)) trip.enc v
        (trip.reads old)

  pub array_field-Trip :
      info.exported ≡ true
      → Trip false t v (is_optional info)
      → ArrayTrip fs vs
      → ArrayTrip (field info t fs) (v, vs)
  unfolding encode_placed write_entries array_fields decode_placed read_entries
  array_field-Trip yes_ trip rest = record {
    enc = trip.enc ++ rest.enc;
    writes = λ e.
        rw (yes_, trip.writes e, encode_placed, rest.writes (e ++ trip.enc))
          (ap ok (append_assoc e trip.enc rest.enc));
    reads = λ (old, olds). rw yes_ (
        Reads-bind _ _ trip.enc rest.enc (v, olds) (v, vs) (first-Reads old olds trip)
          (keeping-Reads v (decode_placed (array_fields (read_entries fs)) olds) _ rest.enc vs
            (placed_behind v (read_entries fs) olds) (rest.reads olds)));
  }

  pub array_passed-Trip :
      info.exported ≡ false → Blank t → ArrayTrip fs vs → ArrayTrip (field info t fs) (v, vs)
  unfolding encode_placed write_entries array_fields decode_placed read_entries
  array_passed-Trip no_ blank rest = record {
    enc = rest.enc;
    writes = λ e. rw no_ (rest.writes e);
    reads = λ (old, olds). rw no_ (
        subst
          (λ (x : Val t).
            Reads
              (decode_placed (array_fields (behind_first_all (Val t) (Vals fs) (read_entries fs)))
                (old, olds))
              rest.enc (x, vs))
          (blank old v)
          (keeping-Reads old (decode_placed (array_fields (read_entries fs)) olds) _ rest.enc vs
            (placed_behind old (read_entries fs) olds) (rest.reads olds)));
  }

  pub map_field-Trip :
      (k : ℤ)
      → key_of info ≡ some k
      → Trip false t v (is_optional info)
      → MapTrip fs vs
      → MapTrip (field info t fs) (v, vs)
  unfolding encode_keyed write_entries keyed_fields with_key in_order read_entries
  map_field-Trip k keyed trip rest = record {
    enc = int_encoding k ++ (trip.enc ++ rest.enc);
    writes = λ e.
        rw
          (
            keyed,
            encode_int_appends k e (key_of-IsInt64 info k keyed),
            trip.writes (e ++ int_encoding k),
            encode_keyed,
            rest.writes ((e ++ int_encoding k) ++ trip.enc),
          )
          (ap ok (
            append_assoc (e ++ int_encoding k) trip.enc rest.enc
            ∙ append_assoc e (int_encoding k) (trip.enc ++ rest.enc)));
    reads = λ (old, olds). rw keyed (
        Reads-bind decode_int _ (int_encoding k) (trip.enc ++ rest.enc) k (v, vs)
          (decode_int-Reads k (key_of-IsInt64 info k keyed))
          (rw (same_key_refl k) (
            Reads-bind _ _ trip.enc rest.enc (v, olds) (v, vs) (first-Reads old olds trip)
              (keeping-Reads v (in_order (keyed_fields (read_entries fs)) olds) _ rest.enc vs
                (in_order_behind v (read_entries fs) olds) (rest.reads olds)))));
  }

  pub map_passed-Trip :
      key_of info ≡ none → Blank t → MapTrip fs vs → MapTrip (field info t fs) (v, vs)
  unfolding encode_keyed write_entries keyed_fields with_key in_order read_entries
  map_passed-Trip keyless blank rest = record {
    enc = rest.enc;
    writes = λ e. rw keyless (rest.writes e);
    reads = λ (old, olds). rw keyless (
        subst
          (λ (x : Val t).
            Reads
              (in_order (keyed_fields (behind_first_all (Val t) (Vals fs) (read_entries fs)))
                (old, olds))
              rest.enc (x, vs))
          (blank old v)
          (keeping-Reads old (in_order (keyed_fields (read_entries fs)) olds) _ rest.enc vs
            (in_order_behind old (read_entries fs) olds) (rest.reads olds)));
  }

-- Fields that stand in the order of their keys are not moved.
module _ {A : Type 0} where
  insert_field-least :
      (f : Keyed A) (gs : List (Keyed A))
      → IsInt64 f.key
      → EachKeyed (λ (a : A). Unit {0}) gs
      → Ascending (some f.key) gs
      → insert_field f gs ≡ f ∷ gs
  unfolding insert_field
  insert_field-least f [] i e a = refl
  insert_field-least f (g ∷ gs) i (u, j, e) (after, a) =
      rw (map_key_cmp-rank g.key f.key j i, is_lt, gt→compare (rank g.key) (rank f.key) after)

  sort_fields-sorted :
      (prev : Option ℤ) (fs : List (Keyed A))
      → EachKeyed (λ (a : A). Unit {0}) fs
      → Ascending prev fs
      → sort_fields fs ≡ fs
  unfolding sort_fields
  sort_fields-sorted prev [] e a = refl
  sort_fields-sorted prev (f ∷ fs) (u, i, e) (after, a) =
      rw (sort_fields-sorted (some f.key) fs e a) (insert_field-least f fs i e a)

encode_map-keyed :
    (es : List (Entry Write)) (ks : List (Keyed Write)) (e : Encoder)
    → map_fields es ≡ ok ks
    → sort_fields ks ≡ ks
    → (has_exported es ≡ false) ⊎ (0 < length ks)
    → encode_map es e ≡ encode_keyed ks (encode_map_header (pos (length ks)) e)
unfolding encode_map encode_keyed
encode_map-keyed es [] e m s (inl none_) = rw (m, encode_map, none_)
encode_map-keyed es [] e m s (inr some_) = absurd (omega arith)
encode_map-keyed es (k ∷ ks) e m s h = rw (m, encode_map, s)

keyless_test :
    (n : ℕ) (exported : Bool) → (exported ≡ false) ⊎ (0 < n) → (n == 0 && exported) ≡ false
keyless_test n exported (inl no_) = ground arith
keyless_test n exported (inr some_) = ground arith

-- The whole struct.
module _ (at_switch optional : Bool) (fs : Fields) (v : Vals fs)
    (plain : option_fields (type_entries fs) ≡ none) where
  no_option_write : option_fields (write_entries fs v) ≡ none
  no_option_write =
      option_fields-SameShape (type_entries fs) (write_entries fs v) (write_entries-SameShape fs v)
        plain

  no_option_read : option_fields (read_entries fs) ≡ none
  no_option_read =
      option_fields-SameShape (type_entries fs) (read_entries fs) (read_entries-SameShape fs) plain

  pub array_struct-Trip : ArrayLayout fs → ArrayTrip fs v → Trip at_switch (struct fs) v optional
  unfolding encode_value encode_struct decode_from decode_struct
  array_struct-Trip (wanted, small) trip = record {
    enc = header 4 n ++ trip.enc;
    writes = λ e.
        rw
          (
            no_option_write,
            encode_struct,
            sym (want_array-SameShape (type_entries fs) (write_entries fs v) written) ∙ wanted,
            len_written,
            encode_array_header-header n e small,
            trip.writes (e ++ header 4 n),
          )
          (ap ok (append_assoc e (header 4 n) trip.enc));
    reads = λ old d rest at.
        rw
          (
            no_option_read,
            decode_struct,
            sym (want_array-SameShape (type_entries fs) (read_entries fs) read_) ∙ wanted,
            len_read,
          )
          (Reads-bind decode_array_header _ (header 4 n) trip.enc n v
            (decode_array_header-Reads n (omega arith))
            (rw (count_differs_self n small) (trip.reads old)) d rest at);
    not_null = λ s. header-NotNull 4 n trip.enc (omega arith);
  }
    where
      n : ℕ
      n = length (array_fields (type_entries fs))

      written : SameShape (type_entries fs) (write_entries fs v)
      written = write_entries-SameShape fs v

      read_ : SameShape (type_entries fs) (read_entries fs)
      read_ = read_entries-SameShape fs

      len_written : length (array_fields (write_entries fs v)) ≡ n
      len_written =
          sym (length-array_fields-SameShape (type_entries fs) (write_entries fs v) written)

      len_read : length (array_fields (read_entries fs)) ≡ n
      len_read = sym (length-array_fields-SameShape (type_entries fs) (read_entries fs) read_)

  pub map_struct-Trip : MapLayout fs → MapTrip fs v → Trip at_switch (struct fs) v optional
  unfolding encode_value encode_struct decode_from decode_struct decode_map
  map_struct-Trip (unwanted, sound, small, ascending, keys) trip = record {
    enc = header 5 n ++ trip.enc;
    writes = λ e.
        rw
          (
            no_option_write,
            encode_struct,
            sym (want_array-SameShape (type_entries fs) (write_entries fs v) written) ∙ unwanted,
            encode_map-keyed (write_entries fs v) (keyed_fields (write_entries fs v)) e
                (map_fields-SameShape (type_entries fs) (write_entries fs v) _ written sound)
                (sort_fields-sorted none (keyed_fields (write_entries fs v))
                  (keyed_fields-IsInt64 (write_entries fs v))
                  (Ascending-SameShape none (type_entries fs) (write_entries fs v) written
                    ascending))
                (subst
                  (λ (b : Bool). (b ≡ false) ⊎ (0 < length (keyed_fields (write_entries fs v))))
                  (has_exported-SameShape (type_entries fs) (write_entries fs v) written)
                  (subst (λ (k : ℕ). (has_exported (type_entries fs) ≡ false) ⊎ (0 < k))
                    (sym len_written) keys)),
            len_written,
            encode_map_header-header n e small,
            trip.writes (e ++ header 5 n),
          )
          (ap ok (append_assoc e (header 5 n) trip.enc));
    reads = λ old d rest at.
        rw
          (
            no_option_read,
            decode_struct,
            sym (want_array-SameShape (type_entries fs) (read_entries fs) read_) ∙ unwanted,
            map_fields-SameShape (type_entries fs) (read_entries fs) _ read_ sound,
            decode_map,
            len_read,
            keyless_test n (has_exported (read_entries fs)) (
                subst (λ (b : Bool). (b ≡ false) ⊎ (0 < n))
                  (has_exported-SameShape (type_entries fs) (read_entries fs) read_) keys),
          )
          (Reads-bind decode_map_header _ (header 5 n) trip.enc n v
            (decode_map_header-Reads n (omega arith))
            (rw (count_differs_self n small) (pairs_read old)) d rest at);
    not_null = λ s. header-NotNull 5 n trip.enc (omega arith);
  }
    where
      n : ℕ
      n = length (keyed_fields (type_entries fs))

      written : SameShape (type_entries fs) (write_entries fs v)
      written = write_entries-SameShape fs v

      read_ : SameShape (type_entries fs) (read_entries fs)
      read_ = read_entries-SameShape fs

      len_written : length (keyed_fields (write_entries fs v)) ≡ n
      len_written =
          sym (length-keyed_fields-SameShape (type_entries fs) (write_entries fs v) written)

      len_read : length (keyed_fields (read_entries fs)) ≡ n
      len_read = sym (length-keyed_fields-SameShape (type_entries fs) (read_entries fs) read_)

      ascending_read : Ascending none (keyed_fields (read_entries fs))
      ascending_read = Ascending-SameShape none (type_entries fs) (read_entries fs) read_ ascending

      pairs_read :
          (old : Vals fs)
          → Reads (decode_pairs (keyed_fields (read_entries fs)) n none old) trip.enc v
      pairs_read old d rest at =
          subst
            (λ (k : ℕ).
              decode_pairs (keyed_fields (read_entries fs)) k none old d
              ≡ done v (advance d (length trip.enc)))
            len_read
            (decode_pairs-in_order (keyed_fields (read_entries fs)) (keyed_fields (read_entries fs))
              none old v d _ tt (keyed_fields-IsInt64 (read_entries fs))
              (Ascending-Found none (keyed_fields (read_entries fs)) ascending_read) ascending_read
              (trip.reads old d rest at))
