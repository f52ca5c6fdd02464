-- ===== src/Keys/Signing.antt =====
-- Composite signatures (xdsa/xdsa.go): both halves sign, and both halves have to verify.
use darkbio_crypto_go.Base.{
  ◌≡◌, refl, ◌↔◌, Bool, true, false, ◌&&◌, ◌++◌, length, take, drop, arith, length-append,
}
use darkbio_crypto_go.Cbor.Types.{Bytes}
use darkbio_crypto_go.Keys.Primitives.{Primitives, valid}
use darkbio_crypto_go.Keys.Laws.{PrimitiveLaws}
use darkbio_crypto_go.Keys.Parsing.{take_at, drop_at, length-take_at}
use darkbio_crypto_go.Keys.Mldsa
use darkbio_crypto_go.Keys.Eddsa
use darkbio_crypto_go.Keys.Xdsa.{
  SecretKey, PublicKey, parse_secret_key, public_key, message_prime, signature_domain,
  compose_signature, split_signature, split_secret, sign, split_sign, verify,
}

both : (a b : Bool) → (a && b) ≡ true ↔ (a ≡ true) × (b ≡ true)
both true b = (λ h. (refl, h), λ h. h.1)
both false b = (λ h. cc, λ h. h.0)

module _ (p : Primitives) where
  -- A signature composed of one of 3309 bytes and another one verifies exactly if each half
  -- verifies M' of the message under its half of the key, the first one in the domain of the
  -- composition.
  pub verify-compose_signature :
      (k : PublicKey p) (message ml_sig ed_sig : Bytes)
      → length ml_sig ≡ 3309
      → verify p k message (compose_signature p ml_sig ed_sig) ≡ true
        ↔ (Mldsa.verify p k.ml_key (message_prime p message) signature_domain ml_sig ≡ true)
          × (Eddsa.verify p k.ed_key (message_prime p message) ed_sig ≡ true)
  unfolding verify compose_signature split_signature
  verify-compose_signature k message ml_sig ed_sig sized =
      rw (take_at 3309 ml_sig ed_sig sized, drop_at 3309 ml_sig ed_sig sized) (both _ _)

  -- SplitSign with the halves of a secret key signs as the key does.
  pub split_sign-split_secret :
      (k : SecretKey p) (message : Bytes)
      → split_sign p (Mldsa.sign p (split_secret p k).0) (Eddsa.sign p (split_secret p k).1) message
        ≡ sign p k message
  unfolding split_sign split_secret sign Mldsa.sign Eddsa.sign
  split_sign-split_secret k message = refl

  module _ (laws : PrimitiveLaws p) where
    -- If the libraries keep their laws, Sign of a key from a seed of 64 bytes gives a signature of
    -- 3373 bytes, which its public key verifies.
    pub verify-sign :
        (seed message : Bytes)
        → length seed ≡ 64
        → (sig : Bytes) × (sign p (parse_secret_key p seed) message ≡ valid sig)
          × (length sig ≡ 3373)
          × (verify p (public_key p (parse_secret_key p seed)) message sig ≡ true)
    unfolding sign parse_secret_key Mldsa.sign Eddsa.sign Mldsa.parse_secret_key
        Eddsa.parse_secret_key verify split_signature Mldsa.verify Eddsa.verify public_key
        Mldsa.public_key Eddsa.public_key
    verify-sign seed message sized =
        let (first, last) = length-take_at 32 32 seed (omega arith) in
        let prime = message_prime p message in
        let (ml_size, ml_good) =
          laws.ml_signs (take 32 seed) prime signature_domain first (omega arith) in
        let (ed_size, ed_good) = laws.ed_signs (drop 32 seed) prime last in
        let ml_sig = p.ml_sign_to (p.ml_new_key_from_seed (take 32 seed)) prime signature_domain in
        let ed_sig = p.ed_sign (p.ed_new_key_from_seed (drop 32 seed)) prime in
        (
          ml_sig ++ ed_sig,
          refl,
          omega (arith, length-append ml_sig ed_sig),
          rw (
            take_at 3309 ml_sig ed_sig ml_size,
            drop_at 3309 ml_sig ed_sig ml_size,
            ml_good,
            ed_good,
          ),
        )
