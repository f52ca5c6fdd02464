-- ===== src/Reflect/RoundTrip.antt =====
-- Unmarshal gives back what Marshal was given (cbor/reflect.go).
use darkbio_crypto_go.Base.{
  ◌≡◌, none, some, Bool, true, false, inl, inr, Bool-cases, Option-cases, [],
}
use darkbio_crypto_go.Cbor.Types.{Bytes, ok}
use darkbio_crypto_go.Reflect.Types
use darkbio_crypto_go.Reflect.Types.{Ty, Fields, Val, Vals}
use darkbio_crypto_go.Reflect.Marshal.{marshal}
use darkbio_crypto_go.Reflect.Unmarshal.{unmarshal, decode_value}
use darkbio_crypto_go.Reflect.Numbers.{unmarshal_whole}
use darkbio_crypto_go.Reflect.Shape.{key_of}
use darkbio_crypto_go.Reflect.Plain.{Plain, PlainArray, PlainMap}
use darkbio_crypto_go.Reflect.Trip.{
  Trip, bool-Trip, uint-Trip, int-Trip, string-Trip, bytes-Trip, nil-Trip, array-Trip, unit-Trip,
  null-Trip, nil_pointer-Trip, pointer-Trip,
}
use darkbio_crypto_go.Reflect.Layouts.{
  ArrayTrip, MapTrip, array_nil-Trip, map_nil-Trip, array_field-Trip, array_passed-Trip,
  map_field-Trip, map_passed-Trip, array_struct-Trip, map_struct-Trip,
}

mutual
  pub value-Trip :
      (t : Ty) (at_switch : Bool) (v : Val t) (optional : Bool)
      → Plain at_switch t v optional
      → Trip at_switch t v optional
  value-Trip Types.bool s v optional h = bool-Trip s optional v
  value-Trip (Types.uint width) s v optional (h, small) = uint-Trip s optional width v h small
  value-Trip (Types.int width) s v optional (h, small) = int-Trip s optional width v h small
  value-Trip Types.string s v optional (small, good) = string-Trip s optional v small good
  value-Trip Types.raw s v optional h = absurd h
  value-Trip Types.byte_slice s none optional (no_, yes_) = nil-Trip s optional no_ yes_
  value-Trip Types.byte_slice s (some b) optional small = bytes-Trip s optional b small
  value-Trip Types.other_slice s v optional h = absurd h
  value-Trip (Types.byte_array n) s v optional (small, len) = array-Trip s optional n v small len
  value-Trip Types.other_array s v optional h = absurd h
  value-Trip Types.unit s v optional h = unit-Trip s optional
  value-Trip Types.null s v optional no_ = null-Trip s optional no_
  value-Trip (Types.struct fs) s v optional (plain, inl (layout, h)) =
      array_struct-Trip s optional fs v plain layout (fields-ArrayTrip fs v h)
  value-Trip (Types.struct fs) s v optional (plain, inr (layout, h)) =
      map_struct-Trip s optional fs v plain layout (fields-MapTrip fs v h)
  value-Trip (Types.ptr t) true none optional (no_, plain, yes_) = absurd (cc)
  value-Trip (Types.ptr t) true (some v) optional (no_, plain, h) = absurd (cc)
  value-Trip (Types.ptr t) false none optional (no_, plain, yes_) =
      nil_pointer-Trip optional t plain yes_
  value-Trip (Types.ptr t) false (some v) optional (no_, plain, h) =
      pointer-Trip optional t v plain (value-Trip t true v false h)
  value-Trip Types.other s v optional h = absurd h

  fields-ArrayTrip : (fs : Fields) (v : Vals fs) → PlainArray fs v → ArrayTrip fs v
  fields-ArrayTrip Types.no_fields v h = array_nil-Trip
  fields-ArrayTrip (Types.field info t fs) v (h, hs) = elim (Bool-cases info.exported) [
    | inl yes_ ↦
        array_field-Trip info t fs v.0 v.1 yes_ (value-Trip t false v.0 _ (rw yes_ at h))
          (fields-ArrayTrip fs v.1 hs)
    | inr no_ ↦ array_passed-Trip info t fs v.0 v.1 no_ (rw no_ at h) (fields-ArrayTrip fs v.1 hs)
  ]

  fields-MapTrip : (fs : Fields) (v : Vals fs) → PlainMap fs v → MapTrip fs v
  fields-MapTrip Types.no_fields v h = map_nil-Trip
  fields-MapTrip (Types.field info t fs) v (h, hs) = elim (Option-cases (key_of info)) [
    | inl keyless ↦
        map_passed-Trip info t fs v.0 v.1 keyless (rw keyless at h) (fields-MapTrip fs v.1 hs)
    | inr (k, keyed) ↦
        map_field-Trip info t fs v.0 v.1 k keyed (value-Trip t false v.0 _ (rw keyed at h))
          (fields-MapTrip fs v.1 hs)
  ]

pub unmarshal-marshal :
    (t : Ty) (v old : Val t)
    → Plain false t v false
    → (bs : Bytes) × (marshal t v ≡ ok bs) × (unmarshal t bs old ≡ ok v)
unfolding marshal decode_value
unmarshal-marshal t v old h =
    let trip = value-Trip t false v false h in
    (trip.enc, trip.writes [], unmarshal_whole t trip.enc old v (trip.reads old))
