-- ===== src/Cbor/Header.antt =====
-- decodeHeader (cbor/cbor.go) reads exactly what encodeLength writes.
use Prim.Native.Nat.{bit_and}
use darkbio_crypto_go.Base.{
  ℕ, ◌+◌, ◌*◌, ◌/◌, ◌^◌, ◌≤◌, ◌<◌, ◌≡◌, sym, ap, ap₂, Bool, ◌∙◌, ◌++◌, [], ◌∷◌, ◌⊎◌, inl, inr,
  arith, some, true, length, le→leb, Bool-cases, Option-cases, All, subst, leb, ◌==◌, if◌then◌else◌,
}
use darkbio_crypto_go.Base.Bits.{low_five}
use darkbio_crypto_go.Cbor.Types.{Bytes, IsByte, IsLength, IsU64, non_canonical}
use darkbio_crypto_go.Cbor.BigEndian.{
  be_bytes, be_value, length-be_bytes, be_value-be_bytes, be_bytes-be_value, be_value-lt,
}
use native.Mathlib.Nat.{add-zero}
use darkbio_crypto_go.Cbor.Decoder.{
  Decoder, done, ◌>>=◌, pure, throw, advance, peek, read_bytes, read_info, is_canonical,
  decode_header,
}
use darkbio_crypto_go.Cbor.Cursor.{
  Consumes, Consumes-nil, Consumes-one, Consumes-append, IsValid-one, Consumes-IsByte, >>=-eq-done,
  Reads, read_bytes-Reads, IsAt-peek, IsAt-advance, advance-advance, Sound, read_bytes_sound,
}
use darkbio_crypto_go.Cbor.Layout.{info_of-lt, info_of, width_of, header}

-- The five layouts, each with its range of values.
abbrev Layout : ℕ → ℕ → ℕ → ℕ → ℕ → Type 0
Layout v info width low high = (info_of v ≡ info) × (width_of v ≡ width) × (low ≤ v) × (v < high)

layout :
    (v : ℕ)
    → IsU64 v
    → Layout v v 0 0 24
      ⊎ Layout v 24 1 24 (256 ^ 1)
      ⊎ Layout v 25 2 256 (256 ^ 2)
      ⊎ Layout v 26 4 65536 (256 ^ 4)
      ⊎ Layout v 27 8 (2 ^ 32) (256 ^ 8)
unfolding info_of width_of
layout v h = ground arith

read_width :
    (k v : ℕ)
    → IsLength k
    → v < 256 ^ k
    → Reads (read_bytes k >>= λ bytes. pure (be_value bytes)) (be_bytes k v) v
read_width k v small fits d rest h = rw (whole, ◌>>=◌, be_value-be_bytes k v fits, length-be_bytes)
  where
    whole : read_bytes k d ≡ done (be_bytes k v) (advance d k)
    whole =
        rw length-be_bytes at (read_bytes-Reads (be_bytes k v) (rw length-be_bytes small) d rest h)

read_info-Reads : (v : ℕ) → IsU64 v → Reads (read_info (info_of v)) (be_bytes (width_of v) v) v
unfolding read_info
read_info-Reads v u d rest = elim (layout v u) [
  | inl (i, w, lo, hi) ↦ λ _. rw (i, w, le→leb v 23 (omega arith), length-be_bytes, add-zero)
  | inr (inl (i, w, lo, hi)) ↦ rw (i, w) (read_width 1 v (omega arith) hi d rest)
  | inr (inr (inl (i, w, lo, hi))) ↦ rw (i, w) (read_width 2 v (omega arith) hi d rest)
  | inr (inr (inr (inl (i, w, lo, hi)))) ↦ rw (i, w) (read_width 4 v (omega arith) hi d rest)
  | inr (inr (inr (inr (i, w, lo, hi)))) ↦ rw (i, w) (read_width 8 v (omega arith) hi d rest)
]

is_canonical-info_of : (v : ℕ) → IsU64 v → is_canonical (info_of v) v ≡ true
unfolding is_canonical info_of
is_canonical-info_of v h = ground arith

-- decodeHeader reads what encodeLength wrote.
pub decode_header-Reads :
    (major v : ℕ) → major < 8 → IsU64 v → Reads decode_header (header major v) (major, v)
unfolding decode_header header
decode_header-Reads major v hm hv d rest h =
    rw
      (
        IsAt-peek d b (be_bytes (width_of v) v ++ rest) h,
        decode_header,
        info,
        tail,
        ◌>>=◌,
        info,
        is_canonical-info_of v hv,
        high,
        advance-advance d 1 (length (be_bytes (width_of v) v)),
      )
      (ap (λ (n : ℕ). done (major, v) (advance d n)) (omega arith))
  where
    b : ℕ
    b = major * 32 + info_of v

    info : bit_and b 0x1f ≡ info_of v
    info = low_five b (omega (arith, info_of-lt v)) ∙ omega (arith, info_of-lt v)

    high : b / 32 ≡ major
    high = omega (arith, info_of-lt v)

    tail :
        read_info (info_of v) (advance d 1)
        ≡ done v (advance (advance d 1) (length (be_bytes (width_of v) v)))
    tail =
        read_info-Reads v hv (advance d 1) rest
          (IsAt-advance d (b ∷ []) (be_bytes (width_of v) v ++ rest) h)

-- A value that readInfo returns and the canonical check passes was written in its layout.
abbrev InLayout : ℕ → ℕ → Bytes → Type 0
InLayout info v enc =
    is_canonical info v ≡ true → IsU64 v × (info ≡ info_of v) × (enc ≡ be_bytes (width_of v) v)

abbrev LayoutFact : ℕ → ℕ → Type 0
LayoutFact k info =
    (v : ℕ)
    → v < 256 ^ k
    → is_canonical info v ≡ true
    → IsU64 v × (info ≡ info_of v) × (width_of v ≡ k)

in_layout :
    (k info : ℕ) (enc : Bytes)
    → LayoutFact k info
    → length enc ≡ k
    → All IsByte enc
    → InLayout info (be_value enc) enc
in_layout k info enc fact len bytes canonical =
    let fits : be_value enc < 256 ^ k = rw len at (be_value-lt enc bytes) in
    let (u, i, w) = fact (be_value enc) fits canonical in
    (u, i, rw (w, ← len) (sym (be_bytes-be_value enc bytes)))

read_width_sound :
    (k info : ℕ)
    → LayoutFact k info
    → Sound (read_bytes k >>= λ bytes. pure (be_value bytes)) (InLayout info)
read_width_sound k info fact d d' v valid h =
    let (bytes, d₁, e, f) = >>=-eq-done (read_bytes k) (λ bytes. pure (be_value bytes)) d d' v h in
    let (enc, (same, len, small, byte), c) = read_bytes_sound k d d₁ bytes valid e in
    let moved : d₁ ≡ d' = cc in
    let value : be_value enc ≡ v = cc in
    (
      enc,
      subst (λ (n : ℕ). InLayout info n enc) value (in_layout k info enc fact len byte),
      subst (Consumes d enc) moved c,
    )

-- Each of the four wider layouts is the only one that its info and the canonical check admit.
module _ (info : ℕ) where
  layout_one : (info == 24) ≡ true → LayoutFact 1 info
  unfolding info_of width_of is_canonical
  layout_one h v fits canonical = ground arith

  layout_two : (info == 25) ≡ true → LayoutFact 2 info
  unfolding info_of width_of is_canonical
  layout_two h v fits canonical = ground arith

  layout_four : (info == 26) ≡ true → LayoutFact 4 info
  unfolding info_of width_of is_canonical
  layout_four h v fits canonical = ground arith

  layout_eight : (info == 27) ≡ true → LayoutFact 8 info
  unfolding info_of width_of is_canonical
  layout_eight h v fits canonical = ground arith

  layout_none : leb info 23 ≡ true → InLayout info info []
  unfolding info_of width_of be_bytes
  layout_none h canonical = ground arith

read_info_sound : (info : ℕ) → Sound (read_info info) (InLayout info)
unfolding read_info
read_info_sound info d d' v valid h = elim (Bool-cases (leb info 23)) [
  | inl small ↦
      let p = rw small at h in
      let value : info ≡ v = cc in
      let moved : d ≡ d' = cc in
      (
        [],
        subst (λ (n : ℕ). InLayout info n []) value (layout_none info small),
        subst (Consumes d []) moved (Consumes-nil d valid),
      )
  | inr large ↦ elim (Bool-cases (info == 24)) [
    | inl eq ↦ read_width_sound 1 info (layout_one info eq) d d' v valid (rw (large, eq) at h)
    | inr n24 ↦ elim (Bool-cases (info == 25)) [
      | inl eq ↦
          read_width_sound 2 info (layout_two info eq) d d' v valid (rw (large, n24, eq) at h)
      | inr n25 ↦ elim (Bool-cases (info == 26)) [
        | inl eq ↦
            read_width_sound 4 info (layout_four info eq) d d' v valid
              (rw (large, n24, n25, eq) at h)
        | inr n26 ↦ elim (Bool-cases (info == 27)) [
          | inl eq ↦
              read_width_sound 8 info (layout_eight info eq) d d' v valid
                (rw (large, n24, n25, n26, eq) at h)
          | inr n27 ↦ absurd (cc (rw (large, n24, n25, n26, n27) at h))
        ]
      ]
    ]
  ]
]

accepted :
    (test : Bool) (high w major v : ℕ) (d d' : Decoder)
    → (if test then pure {A = ℕ × ℕ} (high, w) else throw non_canonical) d ≡ done (major, v) d'
    → (test ≡ true) × (w ≡ v) × (major ≡ high) × (d ≡ d')
accepted test high w major v d d' h = ground arith

decode_header_inv :
    (d d' : Decoder) (major v : ℕ)
    → decode_header d ≡ done (major, v) d'
    → (b : ℕ) × (peek d ≡ some b)
      × (read_info (bit_and b 0x1f) (advance d 1) ≡ done v d')
      × (is_canonical (bit_and b 0x1f) v ≡ true)
      × (major ≡ b / 32)
unfolding decode_header
decode_header_inv d d' major v h = elim (Option-cases (peek d)) [
  | inl none_left ↦ absurd (cc (rw (none_left, decode_header) at h))
  | inr (b, e) ↦
      let (w, d₁, r, f) =
        >>=-eq-done (read_info (bit_and b 0x1f)) _ (advance d 1) d' (major, v)
          (rw (e, decode_header) at h) in
      let (canonical, same, high, moved) = accepted _ (b / 32) w major v d₁ d' f in
      (b, e, rw (same, moved) at r, rw same at canonical, high)
]

-- Whatever decodeHeader accepts is what encodeLength writes for the result.
pub decode_header_sound :
    Sound decode_header (λ (major, v) enc. (major < 8) × IsU64 v × (enc ≡ header major v))
unfolding header
decode_header_sound d d' (major, v) valid h =
    let (b, e, r, canonical, high) = decode_header_inv d d' major v h in
    let one = Consumes-one d b valid e in
    let (enc, layout, c) = read_info_sound _ (advance d 1) d' v (IsValid-one d b valid e) r in
    let (u, i, tail) = layout canonical in
    let (byte, _) = Consumes-IsByte d (advance d 1) (b ∷ []) valid one in
    (
      b ∷ enc,
      (omega arith, u, ap₂ (λ (x : ℕ) (xs : Bytes). x ∷ xs) (omega (arith, low_five b byte)) tail),
      Consumes-append d (advance d 1) d' (b ∷ []) enc one c,
    )
