-- ===== src/Cose/Encrypt.antt =====
-- SealAt, Encrypt, OpenAt, Decrypt, Recipient and verifyEncProtectedHeader of cose/cose.go.
use darkbio_crypto_go.Base.{ℕ, ◌==◌, Option, some, ◌++◌, length}
use darkbio_crypto_go.Base.Int.{ℤ}
use darkbio_crypto_go.Cbor.Types.{Bytes, Result}
use darkbio_crypto_go.Reflect.Types.{Ty, Val, raw, ptr, zero_value}
use darkbio_crypto_go.Reflect.Tags.{bytes_eq}
use darkbio_crypto_go.Reflect.Marshal.{marshal}
use darkbio_crypto_go.Reflect.Unmarshal.{unmarshal, same_key}
use darkbio_crypto_go.Cose.Outcome.{
  Outcome, returned, ◌>>=◌, ◌>>◌, or_return, or_panic, guard, present, unexpected_algorithm,
  unexpected_key, invalid_encap_key_size, decryption_failed,
}
use darkbio_crypto_go.Cose.Types.{
  domain_prefix, algorithm_xhpke, enc_protected_header, enc_structure, cose_encrypt0,
  encrypt_context, encap_key_size, encrypt0_of, encrypt0_protected, encrypt0_encap_key,
  encrypt0_ciphertext, enc_header_of, bytes_of, Signer, Verifier, Sealer, Opener,
}
use darkbio_crypto_go.Cose.Sign.{sign_embedded}
use darkbio_crypto_go.Cose.Verify.{verify_at}

unfoldable pub marshal_enc_header : Sealer → Result Bytes
marshal_enc_header recipient =
    marshal (ptr enc_protected_header) (some (enc_header_of algorithm_xhpke recipient.fingerprint))

-- cbor.Marshal(&enc)
unfoldable pub marshal_enc_structure : Option Bytes → Bytes → Result Bytes
marshal_enc_structure protected auth =
    marshal (ptr enc_structure) (some (tt, (encrypt_context, (protected, (some auth, tt)))))

unfoldable pub marshal_encrypt0 : Val cose_encrypt0 → Result Bytes
marshal_encrypt0 v = marshal (ptr cose_encrypt0) (some v)

unfoldable pub encrypt : Bytes → (u : Ty) → Val u → Sealer → Bytes → Outcome Bytes
unfolding marshal_enc_header marshal_enc_structure marshal_encrypt0
encrypt sign1 u to_auth recipient domain = do
  auth ← or_return (marshal u to_auth)
  protected ← or_panic (marshal_enc_header recipient)
  aad ← or_panic (marshal_enc_structure (some protected) auth)
  (encap_key, ciphertext) ←
      present (recipient.seal sign1 aad (domain_prefix ++ domain)) decryption_failed
  or_panic (marshal_encrypt0 (encrypt0_of (some protected) (some encap_key) (some ciphertext)))

unfoldable pub seal_at :
    (t : Ty) → Val t → (u : Ty) → Val u → Signer → Sealer → Bytes → ℤ → Outcome Bytes
unfolding sign_embedded encrypt
seal_at t to_seal u to_auth signer recipient domain timestamp = do
  seal ← or_return (marshal t to_seal)
  auth ← or_return (marshal u to_auth)
  signed ← sign_embedded seal auth signer domain timestamp
  encrypt signed raw auth recipient domain

unfoldable pub unmarshal_encrypt0 : Bytes → Result (Val cose_encrypt0)
unmarshal_encrypt0 message = unmarshal cose_encrypt0 message (zero_value cose_encrypt0)

unfoldable pub unmarshal_enc_header : Bytes → Result (Val enc_protected_header)
unmarshal_enc_header data_ = unmarshal enc_protected_header data_ (zero_value enc_protected_header)

unfoldable pub verify_enc_header : Bytes → ℤ → Opener → Outcome (Unit {0})
unfolding unmarshal_enc_header bytes_eq
verify_enc_header data_ expected recipient = do
  header ← or_return (unmarshal_enc_header data_)
  guard (same_key header.0 expected) unexpected_algorithm
  guard (bytes_eq header.1.0 recipient.fingerprint) unexpected_key

unfoldable pub decrypt : Bytes → (u : Ty) → Val u → Opener → Bytes → Outcome Bytes
unfolding unmarshal_encrypt0 verify_enc_header marshal_enc_structure
decrypt message u to_auth recipient domain = do
  auth ← or_return (marshal u to_auth)
  encrypt0 ← or_return (unmarshal_encrypt0 message)
  verify_enc_header (bytes_of (encrypt0_protected encrypt0)) algorithm_xhpke recipient
  let encap_key = bytes_of (encrypt0_encap_key encrypt0)
  guard (length encap_key == encap_key_size) invalid_encap_key_size
  aad ← or_panic (marshal_enc_structure (encrypt0_protected encrypt0) auth)
  let ciphertext = bytes_of (encrypt0_ciphertext encrypt0)
  present (recipient.open_ encap_key ciphertext aad (domain_prefix ++ domain)) decryption_failed

unfoldable pub open_at :
    (t : Ty) → Bytes → (u : Ty) → Val u → Opener → Verifier → Bytes → Option ℕ → ℤ → Outcome (Val t)
unfolding decrypt verify_at
open_at t message u to_auth recipient sender domain max_drift now = do
  signed ← decrypt message u to_auth recipient domain
  verify_at t signed u to_auth sender domain max_drift now

unfoldable pub recipient : Bytes → Outcome Bytes
unfolding unmarshal_encrypt0 unmarshal_enc_header
recipient ciphertext = do
  encrypt0 ← or_return (unmarshal_encrypt0 ciphertext)
  header ← or_return (unmarshal_enc_header (bytes_of (encrypt0_protected encrypt0)))
  returned header.1.0

-- With `now` for time.Now().Unix().
unfoldable pub seal :
    (t : Ty) → Val t → (u : Ty) → Val u → Signer → Sealer → Bytes → ℤ → Outcome Bytes
unfolding seal_at
seal t to_seal u to_auth signer recipient domain now =
    seal_at t to_seal u to_auth signer recipient domain now

unfoldable pub open_message :
    (t : Ty) → Bytes → (u : Ty) → Val u → Opener → Verifier → Bytes → Option ℕ → ℤ → Outcome (Val t)
unfolding open_at
open_message t message u to_auth recipient sender domain max_drift now =
    open_at t message u to_auth recipient sender domain max_drift now
