-- ===== src/Keys/Pair.antt =====
-- The keys of xdsa/xdsa.go as those that the package cose signs and verifies with.
use darkbio_crypto_go.Base.{◌≡◌, refl, ap, Option, none, some, length}
use darkbio_crypto_go.Cbor.Types.{Bytes}
use darkbio_crypto_go.Reflect.Plain.{Plain}
use darkbio_crypto_go.Cose.Types.{Signer, Verifier}
use darkbio_crypto_go.Cose.RoundTrip.{KeyPair}
use darkbio_crypto_go.Keys.Primitives.{Primitives, KeyResult, valid, invalid, panicked}
use darkbio_crypto_go.Keys.Laws.{PrimitiveLaws}
use darkbio_crypto_go.Keys.Xdsa.{
  SecretKey, PublicKey, parse_secret_key, public_key, fingerprint, sign, verify,
}
use darkbio_crypto_go.Keys.Signing.{verify-sign}

-- A secret key is a Signer, and a public key is what the package cose verifies with.
abbrev pub signed_bytes : KeyResult Bytes → Option Bytes
signed_bytes (valid b) = some b
signed_bytes (invalid e) = none
signed_bytes panicked = none

abbrev pub signer_of : (p : Primitives) → SecretKey p → Signer
signer_of p k = record {
  fingerprint = fingerprint p (public_key p k);
  sign = λ message. signed_bytes (sign p k message);
}

abbrev pub verifier_of : (p : Primitives) → PublicKey p → Verifier
verifier_of p k = record { fingerprint = fingerprint p k; verify = verify p k }

module _ (p : Primitives) (laws : PrimitiveLaws p) (seed : Bytes) (sized : length seed ≡ 64) where
  pub seed-KeyPair :
      KeyPair
        (signer_of p (parse_secret_key p seed))
        (verifier_of p (public_key p (parse_secret_key p seed)))
  unfolding fingerprint
  seed-KeyPair = record {
    same_fingerprint = refl;
    sized = laws.sha256_size _;
    signs = λ message.
        let (sig, signed, size, good) = verify-sign p laws seed message sized in
        (sig, ap signed_bytes signed, size, good);
  }
