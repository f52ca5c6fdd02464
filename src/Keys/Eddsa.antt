-- ===== src/Keys/Eddsa.antt =====
-- The keys of eddsa/eddsa.go.
use darkbio_crypto_go.Base.{ℕ, Bool, if◌then◌else◌}
use darkbio_crypto_go.Cbor.Types.{Bytes}
use darkbio_crypto_go.Cbor.Decoder.{Decoder}
use darkbio_crypto_go.Cbor.Encoder.{Encoder, encode_bytes}
use darkbio_crypto_go.Keys.Primitives.{
  Primitives, KeyResult, invalid_public_key, valid, invalid, panicked, ◌>>=◌, to_array,
}
use darkbio_crypto_go.Keys.Text.{array_of_text, Unmarshalled, unmarshal_fixed}

abbrev pub secret_key_size : ℕ
secret_key_size = 32

abbrev pub public_key_size : ℕ
public_key_size = 32

abbrev pub signature_size : ℕ
signature_size = 64

abbrev pub fingerprint_size : ℕ
fingerprint_size = 32

pub record SecretKey (p : Primitives) : Type 0 where
  pub key : p.EdPrivate

pub record PublicKey (p : Primitives) : Type 0 where
  pub key : Bytes

module _ (p : Primitives) where
  unfoldable pub parse_secret_key : Bytes → SecretKey p
  parse_secret_key seed = record { key = p.ed_new_key_from_seed seed }

  unfoldable pub marshal_secret : SecretKey p → Bytes
  marshal_secret k = to_array secret_key_size (p.ed_seed k.key)

  unfoldable pub public_key : SecretKey p → PublicKey p
  public_key k = record { key = p.ed_public k.key }

  unfoldable pub sign : SecretKey p → Bytes → KeyResult Bytes
  sign k message = valid (p.ed_sign k.key message)

  unfoldable pub parse_public_key : Bytes → KeyResult (PublicKey p)
  parse_public_key b =
      if p.ed_is_point b then valid (record { key = b }) else invalid invalid_public_key

  unfoldable pub must_parse_public_key : Bytes → KeyResult (PublicKey p)
  unfolding parse_public_key
  must_parse_public_key b = elim (parse_public_key b) [ valid key ↦ valid key | _ ↦ panicked ]

  unfoldable pub marshal_public : PublicKey p → Bytes
  marshal_public k = to_array public_key_size k.key

  unfoldable pub marshal_text : PublicKey p → Bytes
  unfolding marshal_public
  marshal_text k = p.base64_encode (marshal_public k)

  unfoldable pub unmarshal_text : Bytes → KeyResult (PublicKey p)
  unfolding array_of_text parse_public_key
  unmarshal_text text = array_of_text p public_key_size text >>= parse_public_key

  unfoldable pub fingerprint : PublicKey p → Bytes
  unfolding marshal_public
  fingerprint k = p.sha256 (marshal_public k)

  unfoldable pub secret_fingerprint : SecretKey p → Bytes
  unfolding fingerprint public_key
  secret_fingerprint k = fingerprint (public_key k)

  unfoldable pub marshal_cbor : PublicKey p → Encoder → Encoder
  unfolding marshal_public
  marshal_cbor k e = encode_bytes (marshal_public k) e

  unfoldable pub unmarshal_cbor : Decoder → Unmarshalled (PublicKey p)
  unfolding unmarshal_fixed parse_public_key
  unmarshal_cbor d = unmarshal_fixed public_key_size parse_public_key d

  -- Verify returns no error.
  unfoldable pub verify : PublicKey p → Bytes → Bytes → Bool
  verify k message sig = p.ed_verify k.key message sig

  unfoldable pub signature_text : Bytes → Bytes
  signature_text sig = p.base64_encode sig

  unfoldable pub signature_of_text : Bytes → KeyResult Bytes
  unfolding array_of_text
  signature_of_text text = array_of_text p signature_size text

  unfoldable pub fingerprint_text : Bytes → Bytes
  fingerprint_text f = p.base64_encode f

  unfoldable pub fingerprint_of_text : Bytes → KeyResult Bytes
  unfolding array_of_text
  fingerprint_of_text text = array_of_text p fingerprint_size text
