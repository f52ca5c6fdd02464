-- ===== src/Keys/XdsaText.antt =====
-- The texts and CBOR forms of xdsa/xdsa.go.
use darkbio_crypto_go.Cbor.Types.{Bytes}
use darkbio_crypto_go.Cbor.Decoder.{Decoder}
use darkbio_crypto_go.Cbor.Encoder.{Encoder, encode_bytes}
use darkbio_crypto_go.Keys.Primitives.{Primitives, KeyResult, valid, panicked, ◌>>=◌}
use darkbio_crypto_go.Keys.Text.{Unmarshalled, unmarshal_fixed, array_of_text}
use darkbio_crypto_go.Keys.Xdsa.{
  PublicKey, parse_public_key, marshal_public, public_key_size, signature_size, fingerprint_size,
}

module _ (p : Primitives) where
  unfoldable pub must_parse_public_key : Bytes → KeyResult (PublicKey p)
  unfolding parse_public_key
  must_parse_public_key b = elim (parse_public_key p b) [ valid key ↦ valid key | _ ↦ panicked ]

  unfoldable pub marshal_text : PublicKey p → Bytes
  unfolding marshal_public
  marshal_text k = p.base64_encode (marshal_public p k)

  unfoldable pub unmarshal_text : Bytes → KeyResult (PublicKey p)
  unfolding array_of_text parse_public_key
  unmarshal_text text = array_of_text p public_key_size text >>= parse_public_key p

  unfoldable pub marshal_cbor : PublicKey p → Encoder → Encoder
  unfolding marshal_public
  marshal_cbor k e = encode_bytes (marshal_public p k) e

  unfoldable pub unmarshal_cbor : Decoder → Unmarshalled (PublicKey p)
  unfolding unmarshal_fixed parse_public_key
  unmarshal_cbor d = unmarshal_fixed public_key_size (parse_public_key p) d

  unfoldable pub signature_text : Bytes → Bytes
  signature_text sig = p.base64_encode sig

  unfoldable pub signature_of_text : Bytes → KeyResult Bytes
  unfolding array_of_text
  signature_of_text text = array_of_text p signature_size text

  unfoldable pub fingerprint_text : Bytes → Bytes
  fingerprint_text f = p.base64_encode f

  unfoldable pub fingerprint_of_text : Bytes → KeyResult Bytes
  unfolding array_of_text
  fingerprint_of_text text = array_of_text p fingerprint_size text
