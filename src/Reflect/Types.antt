-- ===== src/Reflect/Types.antt =====
-- The Go types and values that cbor/reflect.go distinguishes.
use darkbio_crypto_go.Base.{ℕ, Option, Bool, none, false, [], ◌∷◌}
use darkbio_crypto_go.Base.Int.{ℤ, pos}
use darkbio_crypto_go.Base.{zero, suc}
use darkbio_crypto_go.Cbor.Types.{Bytes}

-- What the code asks of a struct field: its name, whether it is exported (an empty PkgPath), and
-- the text of its cbor tag, which is empty where there is none.
pub record FieldInfo : Type 0 where
  pub name : Bytes
  pub exported : Bool
  pub tag : Bytes

-- Types by their Kind; `uint` and `int` with their width in bits. `raw`, `unit` and `null` are the
-- types Raw, Unit and Null, which the code knows by identity. `byte_slice` is any other []byte,
-- `other_slice` and `other_array` have other elements, and `other` is any further kind. Types that
-- implement Marshaler or Unmarshaler are none of these.
mutual
  pub data Ty : Type 0 where
    bool : Ty
    uint : ℕ → Ty
    int : ℕ → Ty
    string : Ty
    raw : Ty
    byte_slice : Ty
    other_slice : Ty
    byte_array : ℕ → Ty
    other_array : Ty
    unit : Ty
    null : Ty
    struct : Fields → Ty
    ptr : Ty → Ty
    other : Ty

  pub data Fields : Type 0 where
    no_fields : Fields
    field : FieldInfo → Ty → Fields → Fields

-- A value of a type. A nil slice or pointer is `none`; what the code never looks at is a unit.
abbrev mutual
  pub Val : Ty → Type 0
  Val bool = Bool
  Val (uint width) = ℕ
  Val (int width) = ℤ
  Val string = Bytes
  Val raw = Bytes
  Val byte_slice = Option Bytes
  Val other_slice = Unit {0}
  Val (byte_array n) = Bytes
  Val other_array = Unit {0}
  Val unit = Unit {0}
  Val null = Unit {0}
  Val (struct fs) = Vals fs
  Val (ptr t) = Option (Val t)
  Val other = Unit {0}

  pub Vals : Fields → Type 0
  Vals no_fields = Unit {0}
  Vals (field info t fs) = Val t × Vals fs

-- reflect.Zero
abbrev pub zeros : ℕ → Bytes
zeros zero = []
zeros (suc n) = 0 ∷ zeros n

unfoldable mutual
  pub zero_value : (t : Ty) → Val t
  zero_value bool = false
  zero_value (uint width) = 0
  zero_value (int width) = pos 0
  zero_value string = []
  zero_value raw = []
  zero_value byte_slice = none
  zero_value other_slice = tt
  zero_value (byte_array n) = zeros n
  zero_value other_array = tt
  zero_value unit = tt
  zero_value null = tt
  zero_value (struct fs) = zero_values fs
  zero_value (ptr t) = none
  zero_value other = tt

  pub zero_values : (fs : Fields) → Vals fs
  zero_values no_fields = tt
  zero_values (field info t fs) = (zero_value t, zero_values fs)
