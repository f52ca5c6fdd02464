-- ===== src/Keys/Primitives.antt =====
-- What the packages mldsa, eddsa and xdsa call of other libraries, and their results.
use darkbio_crypto_go.Base.{ℕ, Option, Bool, ◌++◌, take}
use darkbio_crypto_go.Cbor.Types
use darkbio_crypto_go.Cbor.Types.{Bytes}
use darkbio_crypto_go.Reflect.Types.{zeros}

-- mldsa65 of circl, crypto/ed25519, the points of edwards25519, crypto/sha256 and sha512, and
-- base64.StdEncoding (strict when it decodes). The types are those of the keys of the libraries; an
-- ed25519.PublicKey is a byte string.
pub record Primitives : Type 1 where
  pub MlPrivate : Type 0
  pub MlPublic : Type 0
  pub EdPrivate : Type 0
  pub ml_new_key_from_seed : Bytes → MlPrivate
  pub ml_public : MlPrivate → MlPublic
  pub ml_sign_to : MlPrivate → Bytes → Bytes → Bytes
  pub ml_verify : MlPublic → Bytes → Bytes → Bytes → Bool
  pub ml_marshal_binary : MlPublic → Bytes
  pub ml_unmarshal_binary : Bytes → Option MlPublic
  pub ed_new_key_from_seed : Bytes → EdPrivate
  pub ed_seed : EdPrivate → Bytes
  pub ed_public : EdPrivate → Bytes
  pub ed_sign : EdPrivate → Bytes → Bytes
  pub ed_verify : Bytes → Bytes → Bytes → Bool
  pub ed_is_point : Bytes → Bool
  pub sha256 : Bytes → Bytes
  pub sha512 : Bytes → Bytes
  pub base64_encode : Bytes → Bytes
  pub base64_decode : Bytes → Option Bytes

-- The errors of the packages, without their texts; `cbor` is one of the Decoder.
pub data KeyError : Type 0 where
  cbor : Types.Error → KeyError
  invalid_character invalid_base64 invalid_length invalid_public_key : KeyError

-- Go's (value, error) pair, or a panic.
pub data KeyResult {ℓ} (A : Type ℓ) : Type ℓ where
  valid : A → KeyResult A
  invalid : KeyError → KeyResult A
  panicked : KeyResult A

infixl 5 ◌>>=◌
abbrev pub ◌>>=◌ {ℓ κ} : {A : Type ℓ} {B : Type κ} → KeyResult A → (A → KeyResult B) → KeyResult B
valid a >>= f = f a
invalid e >>= f = invalid e
panicked >>= f = panicked

-- `copy` of a slice into a new array of `n` bytes.
abbrev pub to_array : ℕ → Bytes → Bytes
to_array n b = take n (b ++ zeros n)
