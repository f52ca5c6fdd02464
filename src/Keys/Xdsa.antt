-- ===== src/Keys/Xdsa.antt =====
-- The composite keys of xdsa/xdsa.go.
use darkbio_crypto_go.Base.{ℕ, Bool, ◌&&◌, [], ◌∷◌, ◌++◌, take, drop}
use darkbio_crypto_go.Cbor.Types.{Bytes}
use darkbio_crypto_go.Keys.Primitives.{
  Primitives, KeyResult, valid, invalid, panicked, invalid_public_key, ◌>>=◌,
}
use darkbio_crypto_go.Keys.Mldsa
use darkbio_crypto_go.Keys.Eddsa

-- "CompositeAlgorithmSignatures2025"
abbrev pub signature_prefix : Bytes
signature_prefix =
    b'C' ∷ b'o' ∷ b'm' ∷ b'p' ∷ b'o' ∷ b's' ∷ b'i' ∷ b't' ∷ b'e' ∷ b'A' ∷ b'l' ∷ b'g' ∷ b'o' ∷ b'r'
    ∷ b'i' ∷ b't' ∷ b'h' ∷ b'm' ∷ b'S' ∷ b'i' ∷ b'g' ∷ b'n' ∷ b'a' ∷ b't' ∷ b'u' ∷ b'r' ∷ b'e'
    ∷ b's' ∷ b'2' ∷ b'0' ∷ b'2' ∷ b'5' ∷ []

-- "COMPSIG-MLDSA65-Ed25519-SHA512"
abbrev pub signature_domain : Bytes
signature_domain =
    b'C' ∷ b'O' ∷ b'M' ∷ b'P' ∷ b'S' ∷ b'I' ∷ b'G' ∷ b'-' ∷ b'M' ∷ b'L' ∷ b'D' ∷ b'S' ∷ b'A' ∷ b'6'
    ∷ b'5' ∷ b'-' ∷ b'E' ∷ b'd' ∷ b'2' ∷ b'5' ∷ b'5' ∷ b'1' ∷ b'9' ∷ b'-' ∷ b'S' ∷ b'H' ∷ b'A'
    ∷ b'5' ∷ b'1' ∷ b'2' ∷ []

abbrev pub secret_key_size : ℕ
secret_key_size = 64

abbrev pub public_key_size : ℕ
public_key_size = 1984

abbrev pub signature_size : ℕ
signature_size = 3373

abbrev pub fingerprint_size : ℕ
fingerprint_size = 32

pub record SecretKey (p : Primitives) : Type 0 where
  pub ml_key : Mldsa.SecretKey p
  pub ed_key : Eddsa.SecretKey p

pub record PublicKey (p : Primitives) : Type 0 where
  pub ml_key : Mldsa.PublicKey p
  pub ed_key : Eddsa.PublicKey p

-- An error of Sign of a key of one's own panics.
abbrev pub or_panic : KeyResult Bytes → KeyResult Bytes
or_panic (valid b) = valid b
or_panic (invalid e) = panicked
or_panic panicked = panicked

-- `if err != nil { return errors.New(...) }`
abbrev pub or_invalid_key : {A : Type 0} → KeyResult A → KeyResult A
or_invalid_key (valid a) = valid a
or_invalid_key (invalid e) = invalid invalid_public_key
or_invalid_key panicked = panicked

module _ (p : Primitives) where
  -- M' of a message, with an empty context.
  unfoldable pub message_prime : Bytes → Bytes
  message_prime message = signature_prefix ++ (signature_domain ++ (0 ∷ p.sha512 message))

  unfoldable pub compose_secret_key : Mldsa.SecretKey p → Eddsa.SecretKey p → SecretKey p
  compose_secret_key ml_key ed_key = record { ml_key = ml_key; ed_key = ed_key }

  unfoldable pub split_secret : SecretKey p → Mldsa.SecretKey p × Eddsa.SecretKey p
  split_secret k = (k.ml_key, k.ed_key)

  unfoldable pub parse_secret_key : Bytes → SecretKey p
  unfolding Mldsa.parse_secret_key Eddsa.parse_secret_key
  parse_secret_key seed = record {
    ml_key = Mldsa.parse_secret_key p (take 32 seed);
    ed_key = Eddsa.parse_secret_key p (drop 32 seed);
  }

  unfoldable pub marshal_secret : SecretKey p → Bytes
  unfolding Mldsa.marshal_secret Eddsa.marshal_secret
  marshal_secret k = Mldsa.marshal_secret p k.ml_key ++ Eddsa.marshal_secret p k.ed_key

  unfoldable pub public_key : SecretKey p → PublicKey p
  unfolding Mldsa.public_key Eddsa.public_key
  public_key k = record {
    ml_key = Mldsa.public_key p k.ml_key;
    ed_key = Eddsa.public_key p k.ed_key;
  }

  unfoldable pub compose_public_key : Mldsa.PublicKey p → Eddsa.PublicKey p → PublicKey p
  compose_public_key ml_key ed_key = record { ml_key = ml_key; ed_key = ed_key }

  unfoldable pub split_public : PublicKey p → Mldsa.PublicKey p × Eddsa.PublicKey p
  split_public k = (k.ml_key, k.ed_key)

  unfoldable pub parse_public_key : Bytes → KeyResult (PublicKey p)
  unfolding Mldsa.parse_public_key Eddsa.parse_public_key
  parse_public_key b = or_invalid_key (Eddsa.parse_public_key p (drop 1952 b)) >>= λ ed_key.
      Mldsa.parse_public_key p (take 1952 b) >>= λ ml_key.
      valid (record { ml_key = ml_key; ed_key = ed_key })

  unfoldable pub marshal_public : PublicKey p → Bytes
  unfolding Mldsa.marshal_public Eddsa.marshal_public
  marshal_public k = Mldsa.marshal_public p k.ml_key ++ Eddsa.marshal_public p k.ed_key

  unfoldable pub fingerprint : PublicKey p → Bytes
  unfolding marshal_public
  fingerprint k = p.sha256 (marshal_public k)

  unfoldable pub secret_fingerprint : SecretKey p → Bytes
  unfolding fingerprint public_key
  secret_fingerprint k = fingerprint (public_key k)

  unfoldable pub compose_signature : Bytes → Bytes → Bytes
  compose_signature ml_sig ed_sig = ml_sig ++ ed_sig

  unfoldable pub split_signature : Bytes → Bytes × Bytes
  split_signature sig = (take 3309 sig, drop 3309 sig)

  unfoldable pub sign : SecretKey p → Bytes → KeyResult Bytes
  unfolding message_prime Mldsa.sign Eddsa.sign
  sign k message =
      or_panic (Mldsa.sign p k.ml_key (message_prime message) signature_domain) >>= λ ml_sig.
      or_panic (Eddsa.sign p k.ed_key (message_prime message)) >>= λ ed_sig.
      valid (ml_sig ++ ed_sig)

  -- With the Sign methods of the two signers.
  unfoldable pub split_sign :
      (Bytes → Bytes → KeyResult Bytes) → (Bytes → KeyResult Bytes) → Bytes → KeyResult Bytes
  unfolding message_prime
  split_sign ml_sign ed_sign message =
      ml_sign (message_prime message) signature_domain >>= λ ml_sig.
      ed_sign (message_prime message) >>= λ ed_sig. valid (ml_sig ++ ed_sig)

  -- Verify returns no error.
  unfoldable pub verify : PublicKey p → Bytes → Bytes → Bool
  unfolding message_prime split_signature Mldsa.verify Eddsa.verify
  verify k message sig =
      let (ml_sig, ed_sig) = split_signature sig in
      Mldsa.verify p k.ml_key (message_prime message) signature_domain ml_sig
      && Eddsa.verify p k.ed_key (message_prime message) ed_sig
