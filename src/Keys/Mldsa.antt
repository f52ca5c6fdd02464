-- ===== src/Keys/Mldsa.antt =====
-- The keys of mldsa/mldsa.go.
use darkbio_crypto_go.Base.{ℕ, Bool, none, some}
use darkbio_crypto_go.Cbor.Types.{Bytes}
use darkbio_crypto_go.Cbor.Decoder.{Decoder}
use darkbio_crypto_go.Cbor.Encoder.{Encoder, encode_bytes}
use darkbio_crypto_go.Keys.Primitives.{Primitives, KeyResult, valid, panicked, ◌>>=◌, to_array}
use darkbio_crypto_go.Keys.Text.{array_of_text, Unmarshalled, unmarshal_fixed}

abbrev pub secret_key_size : ℕ
secret_key_size = 32

abbrev pub public_key_size : ℕ
public_key_size = 1952

abbrev pub signature_size : ℕ
signature_size = 3309

abbrev pub fingerprint_size : ℕ
fingerprint_size = 32

pub record SecretKey (p : Primitives) : Type 0 where
  pub key : p.MlPrivate
  pub seed : Bytes

pub record PublicKey (p : Primitives) : Type 0 where
  pub key : p.MlPublic

module _ (p : Primitives) where
  unfoldable pub parse_secret_key : Bytes → SecretKey p
  parse_secret_key seed = record { key = p.ml_new_key_from_seed seed; seed = seed }

  unfoldable pub marshal_secret : SecretKey p → Bytes
  marshal_secret k = k.seed

  unfoldable pub public_key : SecretKey p → PublicKey p
  public_key k = record { key = p.ml_public k.key }

  unfoldable pub sign : SecretKey p → Bytes → Bytes → KeyResult Bytes
  sign k message ctx = valid (p.ml_sign_to k.key message ctx)

  unfoldable pub parse_public_key : Bytes → KeyResult (PublicKey p)
  parse_public_key b = elim (p.ml_unmarshal_binary b) [
    | none ↦ panicked
    | some key ↦ valid (record { key = key })
  ]

  unfoldable pub marshal_public : PublicKey p → Bytes
  marshal_public k = to_array public_key_size (p.ml_marshal_binary k.key)

  unfoldable pub marshal_text : PublicKey p → Bytes
  unfolding marshal_public
  marshal_text k = p.base64_encode (marshal_public k)

  unfoldable pub unmarshal_text : Bytes → KeyResult (PublicKey p)
  unfolding array_of_text parse_public_key
  unmarshal_text text = array_of_text p public_key_size text >>= parse_public_key

  unfoldable pub fingerprint : PublicKey p → Bytes
  unfolding marshal_public
  fingerprint k = p.sha256 (marshal_public k)

  unfoldable pub secret_fingerprint : SecretKey p → Bytes
  unfolding fingerprint public_key
  secret_fingerprint k = fingerprint (public_key k)

  unfoldable pub marshal_cbor : PublicKey p → Encoder → Encoder
  unfolding marshal_public
  marshal_cbor k e = encode_bytes (marshal_public k) e

  unfoldable pub unmarshal_cbor : Decoder → Unmarshalled (PublicKey p)
  unfolding unmarshal_fixed parse_public_key
  unmarshal_cbor d = unmarshal_fixed public_key_size parse_public_key d

  -- Verify returns no error.
  unfoldable pub verify : PublicKey p → Bytes → Bytes → Bytes → Bool
  verify k message ctx sig = p.ml_verify k.key message ctx sig

  unfoldable pub signature_text : Bytes → Bytes
  signature_text sig = p.base64_encode sig

  unfoldable pub signature_of_text : Bytes → KeyResult Bytes
  unfolding array_of_text
  signature_of_text text = array_of_text p signature_size text

  unfoldable pub fingerprint_text : Bytes → Bytes
  fingerprint_text f = p.base64_encode f

  unfoldable pub fingerprint_of_text : Bytes → KeyResult Bytes
  unfolding array_of_text
  fingerprint_of_text text = array_of_text p fingerprint_size text
