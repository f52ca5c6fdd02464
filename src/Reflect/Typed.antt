-- ===== src/Reflect/Typed.antt =====
-- The values of a Go type, and that the Decoder methods and the setters that decodeValue calls stay
-- within them (cbor/reflect.go).
use darkbio_crypto_go.Base.{
  ℕ, zero, suc, ◌-◌, ◌%◌, ◌^◌, ◌≤◌, ◌<◌, ◌≡◌, refl, ap, ◌∙◌, subst, some, Bool, true, false, [],
  length, drop, ◌==◌, ltb, ◌||◌, not, arith, length-drop, length-take_le, if◌then◌else◌, inl, inr,
  Bool-cases, ltb→lt, ◌*◌,
}
use darkbio_crypto_go.Base.Int.{ℤ, pos, negsuc}
use darkbio_crypto_go.Cbor.Types.{Bytes, Error, IsLength, max_int, major_bytes, major_text}
use darkbio_crypto_go.Cbor.Utf8
use darkbio_crypto_go.Cbor.Decoder.{
  Decoder, M, done, ◌>>=◌, pure, throw, read_bytes, decode_header, decode_bytes, decode_bytes_fixed,
  decode_text,
}
use darkbio_crypto_go.Cbor.Cursor.{read_bytes_inv, >>=-eq-done}
use darkbio_crypto_go.Reflect.Types.{
  Ty, Fields, Val, Vals, bool, uint, int, string, raw, byte_slice, other_slice, byte_array,
  other_array, unit, null, struct, ptr, other, no_fields, field, zero_value, zero_values, zeros,
}
use darkbio_crypto_go.Reflect.Unmarshal.{set_uint, set_int}
use darkbio_crypto_go.Reflect.Numbers.{InWidth}
use native.Mathlib.Nat.{mod-lt, one-le-pow}

-- Numbers are in the range of their width, an array has its length, and texts are UTF-8.
abbrev mutual
  pub WellTyped : (t : Ty) → Val t → Type 0
  WellTyped (uint width) v = v < 2 ^ width
  WellTyped (int width) v = InWidth width v
  WellTyped string v = IsLength (length v) × (Utf8.valid v ≡ true)
  WellTyped byte_slice (some b) = IsLength (length b)
  WellTyped (byte_array n) v = length v ≡ n
  WellTyped (struct fs) v = WellTypedFields fs v
  WellTyped (ptr t) (some v) = WellTyped t v
  WellTyped _ _ = Unit {0}

  pub WellTypedFields : (fs : Fields) → Vals fs → Type 0
  WellTypedFields no_fields v = Unit {0}
  WellTypedFields (field info t fs) v = WellTyped t v.0 × WellTypedFields fs v.1

valid-nil : Utf8.valid [] ≡ true
unfolding Utf8.valid
valid-nil = refl

pub length-zeros : (n : ℕ) → length (zeros n) ≡ n
length-zeros zero = refl
length-zeros (suc n) = ap suc (length-zeros n)

-- So is the zero value, which every variable starts with.
mutual
  unfolding zero_value zero_values

  pub zero_value-WellTyped : (t : Ty) → WellTyped t (zero_value t)
  zero_value-WellTyped bool = tt
  zero_value-WellTyped (uint width) = one-le-pow width 2 (omega arith)
  zero_value-WellTyped (int width) = one-le-pow (width - 1) 2 (omega arith)
  zero_value-WellTyped string = (omega arith, valid-nil)
  zero_value-WellTyped raw = tt
  zero_value-WellTyped byte_slice = tt
  zero_value-WellTyped other_slice = tt
  zero_value-WellTyped (byte_array n) = length-zeros n
  zero_value-WellTyped other_array = tt
  zero_value-WellTyped unit = tt
  zero_value-WellTyped null = tt
  zero_value-WellTyped (struct fs) = zero_values-WellTyped fs
  zero_value-WellTyped (ptr t) = tt
  zero_value-WellTyped other = tt

  zero_values-WellTyped : (fs : Fields) → WellTypedFields fs (zero_values fs)
  zero_values-WellTyped no_fields = tt
  zero_values-WellTyped (field info t fs) = (zero_value-WellTyped t, zero_values-WellTyped fs)

pub set_uint-WellTyped : (width v : ℕ) → WellTyped (uint width) (set_uint width v)
unfolding set_uint
set_uint-WellTyped width v = mod-lt v {m = 2 ^ width} (one-le-pow width 2 (omega arith))

pow_half : (width : ℕ) → 2 ^ width ≤ 2 * 2 ^ (width - 1)
pow_half zero = omega arith
pow_half (suc width) =
    let twice : 2 ^ suc width ≤ 2 * 2 ^ width = omega arith in
    let same : width ≡ suc width - 1 = omega arith in
    subst (λ (n : ℕ). 2 ^ suc width ≤ 2 * 2 ^ n) same twice

upper_half : (width x : ℕ) → ltb x (2 ^ (width - 1)) ≡ false → 2 ^ width - 1 - x < 2 ^ (width - 1)
upper_half width x high =
    let half = pow_half width in
    let some_ = one-le-pow (width - 1) 2 (omega arith) in
    let above : 2 ^ (width - 1) ≤ x = ground arith in omega arith

pub set_int-WellTyped : (width : ℕ) (k : ℤ) → WellTyped (int width) (set_int width k)
unfolding set_int
set_int-WellTyped width (pos n) = elim (Bool-cases (ltb (n % 2 ^ width) (2 ^ (width - 1)))) [
  | inl low ↦ rw low (ltb→lt _ _ low)
  | inr high ↦ rw high (omega (arith, upper_half width (n % 2 ^ width) high))
]
set_int-WellTyped width (negsuc n) = elim (Bool-cases (ltb (n % 2 ^ width) (2 ^ (width - 1)))) [
  | inl low ↦ rw low (ltb→lt _ _ low)
  | inr high ↦ rw high (upper_half width (n % 2 ^ width) high)
]

-- What a reader returns.
abbrev pub Returns {ℓ} : {A : Type 0} → M A → (A → Type ℓ) → Type ℓ
Returns {A = A} m P = (d d' : Decoder) (a : A) → m d ≡ done a d' → P a

module _ {A : Type 0} (P : A → Type 0) where
  pub throw-Returns : (e : Error) → Returns (throw e) P
  throw-Returns e d d' a h = cc

  pub pure-Returns : (a : A) → P a → Returns (pure a) P
  pure-Returns a p d d' b h = subst P {x = a} {y = b} (cc) p

  pub bind-Returns :
      {B : Type 0} (m : M B) (f : B → M A) → ((b : B) → Returns (f b) P) → Returns (m >>= f) P
  bind-Returns m f r d d' a h =
      let (b, d₁, first, rest) = >>=-eq-done m f d d' a h in r b d₁ d' a rest

  pub if-Returns :
      (test : Bool) (m n : M A)
      → (test ≡ true → Returns m P)
      → (test ≡ false → Returns n P)
      → Returns (if test then m else n) P
  if-Returns true m n r s = r refl
  if-Returns false m n r s = s refl

  -- What is done after a reader whose results are known.
  pub after-Returns :
      {B : Type 0} (Q : B → Type 0) (m : M B) (f : B → M A)
      → Returns m Q
      → ((b : B) → Q b → Returns (f b) P)
      → Returns (m >>= f) P
  after-Returns Q m f q r d d' a h =
      let (b, d₁, first, rest) = >>=-eq-done m f d d' a h in r b (q d d₁ b first) d₁ d' a rest

read_bytes-Returns : (n : ℕ) → Returns (read_bytes n) (λ b. (length b ≡ n) × IsLength n)
read_bytes-Returns n d d' b h =
    let (small, enough, same, moved) = read_bytes_inv n d d' b h in
    (
      ap length same
          ∙ length-take_le n (drop d.cursor d.data_) (omega (arith, length-drop d.cursor d.data_)),
      small,
    )

abbrev pub LengthFits : Bytes → Type 0
LengthFits b = IsLength (length b)

abbrev pub IsGoText : Bytes → Type 0
IsGoText b = IsLength (length b) × (Utf8.valid b ≡ true)

read_bytes_fits : (n : ℕ) → Returns (read_bytes n) LengthFits
read_bytes_fits n d d' b h = let (len, small) = read_bytes-Returns n d d' b h in omega arith

pub decode_bytes-Returns : Returns decode_bytes LengthFits
unfolding decode_bytes
decode_bytes-Returns = bind-Returns LengthFits decode_header _ λ (major, n).
    if-Returns LengthFits (major == major_bytes) _ _ (λ e. read_bytes_fits n)
      (λ e. throw-Returns LengthFits _)

abbrev pub HasLength : ℕ → Bytes → Type 0
HasLength n b = length b ≡ n

pub decode_bytes_fixed-Returns : (n : ℕ) → Returns (decode_bytes_fixed n) (HasLength n)
unfolding decode_bytes_fixed
decode_bytes_fixed-Returns n = bind-Returns (HasLength n) decode_header _ λ (major, len).
    if-Returns (HasLength n) (major == major_bytes) _ _
      (λ e.
        if-Returns (HasLength n) (ltb max_int len || not (len == n)) _ _
          (λ f. throw-Returns (HasLength n) _)
          (λ f d d' b h. let (sized, small) = read_bytes-Returns len d d' b h in ground arith))
      (λ e. throw-Returns (HasLength n) _)

pub decode_text-Returns : Returns decode_text IsGoText
unfolding decode_text
decode_text-Returns = bind-Returns IsGoText decode_header _ λ (major, len).
    if-Returns IsGoText (major == major_text) _ _
      (λ e. after-Returns IsGoText LengthFits (read_bytes len) _ (read_bytes_fits len) λ b fits.
        if-Returns IsGoText (Utf8.valid b) _ _ (λ good. pure-Returns IsGoText b (fits, good))
          (λ f. throw-Returns IsGoText _))
      (λ e. throw-Returns IsGoText _)
