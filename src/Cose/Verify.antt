-- ===== src/Cose/Verify.antt =====
-- VerifyDetachedAt, VerifyAt, verify, verifyDetached, verifySigProtectedHeader, Signer and Peek of
-- cose/cose.go.
use darkbio_crypto_go.Base.{ℕ, Option, none, some, Bool, true, false, not, []}
use darkbio_crypto_go.Base.Int.{ℤ}
use darkbio_crypto_go.Cbor.Types.{Bytes, Result, ok, err}
use darkbio_crypto_go.Reflect.Types.{Ty, Val, zero_value}
use darkbio_crypto_go.Reflect.Tags.{bytes_eq}
use darkbio_crypto_go.Reflect.Marshal.{marshal}
use darkbio_crypto_go.Reflect.Unmarshal.{unmarshal, same_key}
use darkbio_crypto_go.Cose.Outcome.{
  Outcome, returned, ◌>>=◌, ◌>>◌, or_return, guard, present, unexpected_algorithm, unexpected_key,
  unexpected_payload, missing_payload, invalid_signature, stale_signature,
}
use darkbio_crypto_go.Cose.Types.{
  algorithm_xdsa, header_timestamp, sig_protected_header, cose_sign1, sign1_protected,
  sign1_payload, sign1_signature, header_algorithm, header_crit, header_kid, header_time, bytes_of,
  Verifier,
}
use darkbio_crypto_go.Cose.Drift.{is_stale}
use darkbio_crypto_go.Cose.Sign.{marshal_aad, marshal_sig_structure}

unfoldable pub unmarshal_sign1 : Bytes → Result (Val cose_sign1)
unmarshal_sign1 message = unmarshal cose_sign1 message (zero_value cose_sign1)

unfoldable pub unmarshal_sig_header : Bytes → Result (Val sig_protected_header)
unmarshal_sig_header data_ = unmarshal sig_protected_header data_ (zero_value sig_protected_header)

-- verifySigProtectedHeader; `same_key` is equality of int64s, `bytes_eq` that of [32]byte.
unfoldable pub verify_sig_header : Bytes → ℤ → Verifier → Outcome (Val sig_protected_header)
unfolding unmarshal_sig_header bytes_eq
verify_sig_header data_ expected verifier = do
  header ← or_return (unmarshal_sig_header data_)
  guard (same_key (header_algorithm header) expected) unexpected_algorithm
  guard (same_key (header_crit header) header_timestamp) unexpected_algorithm
  guard (bytes_eq (header_kid header) verifier.fingerprint) unexpected_key
  returned header

-- `toBeSigned, _ := cbor.Marshal(&sig)`: an error leaves nil.
abbrev pub or_nil : Result Bytes → Bytes
or_nil (ok b) = b
or_nil (err e) = []

abbrev pub is_nil : Option Bytes → Bool
is_nil none = true
is_nil (some b) = false

unfoldable pub verify_embedded : Bytes → Bytes → Verifier → Bytes → Option ℕ → ℤ → Outcome Bytes
unfolding marshal_aad unmarshal_sign1 verify_sig_header is_stale marshal_sig_structure
verify_embedded message auth verifier domain max_drift now = do
  aad ← or_return (marshal_aad domain auth)
  sign1 ← or_return (unmarshal_sign1 message)
  payload ← present (sign1_payload sign1) missing_payload
  header ← verify_sig_header (bytes_of (sign1_protected sign1)) algorithm_xdsa verifier
  guard (not (is_stale max_drift now (header_time header))) stale_signature
  let to_be_signed = or_nil (marshal_sig_structure (sign1_protected sign1) aad payload)
  guard (verifier.verify to_be_signed (sign1_signature sign1)) invalid_signature
  returned payload

unfoldable pub verify_null : Bytes → Bytes → Verifier → Bytes → Option ℕ → ℤ → Outcome (Unit {0})
unfolding marshal_aad unmarshal_sign1 verify_sig_header is_stale marshal_sig_structure
verify_null message auth verifier domain max_drift now = do
  aad ← or_return (marshal_aad domain auth)
  sign1 ← or_return (unmarshal_sign1 message)
  guard (is_nil (sign1_payload sign1)) unexpected_payload
  header ← verify_sig_header (bytes_of (sign1_protected sign1)) algorithm_xdsa verifier
  guard (not (is_stale max_drift now (header_time header))) stale_signature
  let to_be_signed = or_nil (marshal_sig_structure (sign1_protected sign1) aad [])
  guard (verifier.verify to_be_signed (sign1_signature sign1)) invalid_signature

-- VerifyAt[T], with T the type `t`.
unfoldable pub verify_at :
    (t : Ty) → Bytes → (u : Ty) → Val u → Verifier → Bytes → Option ℕ → ℤ → Outcome (Val t)
unfolding verify_embedded
verify_at t message u to_auth verifier domain max_drift now = do
  auth ← or_return (marshal u to_auth)
  payload ← verify_embedded message auth verifier domain max_drift now
  or_return (unmarshal t payload (zero_value t))

unfoldable pub verify_detached_at :
    Bytes → (u : Ty) → Val u → Verifier → Bytes → Option ℕ → ℤ → Outcome (Unit {0})
unfolding verify_null
verify_detached_at message u to_auth verifier domain max_drift now = do
  auth ← or_return (marshal u to_auth)
  verify_null message auth verifier domain max_drift now

-- With `now` for time.Now().Unix().
unfoldable pub verify_ :
    (t : Ty) → Bytes → (u : Ty) → Val u → Verifier → Bytes → Option ℕ → ℤ → Outcome (Val t)
unfolding verify_at
verify_ t message u to_auth verifier domain max_drift now =
    verify_at t message u to_auth verifier domain max_drift now

unfoldable pub verify_detached :
    Bytes → (u : Ty) → Val u → Verifier → Bytes → Option ℕ → ℤ → Outcome (Unit {0})
unfolding verify_detached_at
verify_detached message u to_auth verifier domain max_drift now =
    verify_detached_at message u to_auth verifier domain max_drift now

unfoldable pub signer : Bytes → Outcome Bytes
unfolding unmarshal_sign1 unmarshal_sig_header
signer signature = do
  sign1 ← or_return (unmarshal_sign1 signature)
  header ← or_return (unmarshal_sig_header (bytes_of (sign1_protected sign1)))
  returned (header_kid header)

unfoldable pub peek_payload : (t : Ty) → Bytes → Outcome (Val t)
unfolding unmarshal_sign1
peek_payload t signature = do
  sign1 ← or_return (unmarshal_sign1 signature)
  payload ← present (sign1_payload sign1) missing_payload
  or_return (unmarshal t payload (zero_value t))
