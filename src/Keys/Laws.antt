-- ===== src/Keys/Laws.antt =====
-- What the proofs use of the libraries under mldsa, eddsa and xdsa: their documented behaviour.
use darkbio_crypto_go.Base.{◌≤◌, ◌≡◌, some, true, false, length}
use darkbio_crypto_go.Cbor.Types.{Bytes}
use darkbio_crypto_go.Keys.Primitives.{Primitives}
use darkbio_crypto_go.Keys.Text.{has_line_break}

pub record PrimitiveLaws (p : Primitives) : Type 0 where
  -- A signature has its size, and verifies under the public key.
  pub ml_signs :
      (seed message ctx : Bytes)
      → length seed ≡ 32
      → length ctx ≤ 255
      → (length (p.ml_sign_to (p.ml_new_key_from_seed seed) message ctx) ≡ 3309)
        × (p.ml_verify
              (p.ml_public (p.ml_new_key_from_seed seed))
              message
              ctx
              (p.ml_sign_to (p.ml_new_key_from_seed seed) message ctx)
            ≡ true)
  pub ed_signs :
      (seed message : Bytes)
      → length seed ≡ 32
      → (length (p.ed_sign (p.ed_new_key_from_seed seed) message) ≡ 64)
        × (p.ed_verify
              (p.ed_public (p.ed_new_key_from_seed seed))
              message
              (p.ed_sign (p.ed_new_key_from_seed seed) message)
            ≡ true)
  -- The binary forms of the keys.
  pub ml_unmarshals :
      (b : Bytes)
      → length b ≡ 1952
      → (k : p.MlPublic) × (p.ml_unmarshal_binary b ≡ some k) × (p.ml_marshal_binary k ≡ b)
  pub ml_marshals :
      (seed : Bytes)
      → length seed ≡ 32
      → (length (p.ml_marshal_binary (p.ml_public (p.ml_new_key_from_seed seed))) ≡ 1952)
        × (p.ml_unmarshal_binary (p.ml_marshal_binary (p.ml_public (p.ml_new_key_from_seed seed)))
            ≡ some (p.ml_public (p.ml_new_key_from_seed seed)))
  pub ed_seed_of :
      (seed : Bytes) → length seed ≡ 32 → p.ed_seed (p.ed_new_key_from_seed seed) ≡ seed
  pub ed_point :
      (seed : Bytes)
      → length seed ≡ 32
      → (length (p.ed_public (p.ed_new_key_from_seed seed)) ≡ 32)
        × (p.ed_is_point (p.ed_public (p.ed_new_key_from_seed seed)) ≡ true)
  pub sha256_size : (b : Bytes) → length (p.sha256 b) ≡ 32
  -- base64 has no line breaks of its own.
  pub base64_text :
      (b : Bytes)
      → (has_line_break (p.base64_encode b) ≡ false)
        × (p.base64_decode (p.base64_encode b) ≡ some b)
