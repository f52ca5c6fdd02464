-- ===== src/Cose/Agreement.antt =====
-- What Signer, Peek, Verify and Recipient, Decrypt (cose/cose.go) say of one message.
use darkbio_crypto_go.Base.{
  ℕ, ltb, if◌then◌else◌, inl, inr, Bool-cases, ◌≡◌, ap, Option, none, some,
}
use darkbio_crypto_go.Base.Int.{ℤ}
use darkbio_crypto_go.Cbor.Types.{Bytes}
use darkbio_crypto_go.Reflect.Types.{Ty, Val}
use darkbio_crypto_go.Reflect.Marshal.{marshal}
use darkbio_crypto_go.Cose.Outcome.{
  returned, failed, stale_signature, unexpected_payload, or_return, unexpected_algorithm,
  unexpected_key, >>=-eq-returned, or_return-eq-returned, guard-eq-returned, guard-eq-returned_tt,
}
use darkbio_crypto_go.Cose.Types.{
  algorithm_xhpke, bytes_of, header_time, encrypt0_protected, Verifier, Opener,
}
use darkbio_crypto_go.Cose.Verify.{verify_embedded, verify_null, verify_at, signer, peek_payload}
use darkbio_crypto_go.Cose.Encrypt.{
  unmarshal_encrypt0, unmarshal_enc_header, verify_enc_header, decrypt, recipient,
}
use darkbio_crypto_go.Cose.Accepting.{
  verify_embedded_iff, bytes_eq_sound, verify_sig_header-GoodHeader,
}
use darkbio_crypto_go.Cose.Drift.{is_stale, drift}

-- What VerifyAt returns, Peek returns without the check, and Signer names the key of the verifier.
pub peek_payload-verify_at :
    (t : Ty) (message : Bytes) (u : Ty) (a : Val u) (verifier : Verifier) (domain : Bytes)
    (max_drift : Option ℕ) (now : ℤ) (v : Val t)
    → verify_at t message u a verifier domain max_drift now ≡ returned v
    → (peek_payload t message ≡ returned v) × (signer message ≡ returned verifier.fingerprint)
unfolding verify_at peek_payload signer
peek_payload-verify_at t message u a verifier domain max_drift now v h =
    let (auth, authed, h₁) = >>=-eq-returned (or_return (marshal u a)) _ h in
    let (payload, verified, read) =
      >>=-eq-returned (verify_embedded message auth verifier domain max_drift now) _ h₁ in
    let accepted =
      (verify_embedded_iff message auth verifier domain max_drift now payload).0 verified in
    (
      rw (accepted.parsed, accepted.has_payload) read,
      rw (accepted.parsed, accepted.good.parsed) (ap returned accepted.good.kid),
    )

-- Of every message that Decrypt opens, Recipient names the key that opened it.
pub recipient-decrypt :
    (message : Bytes) (u : Ty) (a : Val u) (opener : Opener) (domain signed : Bytes)
    → decrypt message u a opener domain ≡ returned signed
    → recipient message ≡ returned opener.fingerprint
unfolding decrypt recipient verify_enc_header
recipient-decrypt message u a opener domain signed h =
    let (auth, authed, h₁) = >>=-eq-returned (or_return (marshal u a)) _ h in
    let (encrypt0, parsed, h₂) = >>=-eq-returned (or_return (unmarshal_encrypt0 message)) _ h₁ in
    let (done, checked, h₃) = >>=-eq-returned (verify_enc_header _ algorithm_xhpke opener) _ h₂ in
    let (header, read, h₄) =
      >>=-eq-returned (or_return (unmarshal_enc_header (bytes_of (encrypt0_protected encrypt0)))) _
        checked in
    let (algorithm, h₅) = guard-eq-returned _ unexpected_algorithm _ h₄ in
    let kid = guard-eq-returned_tt _ unexpected_key h₅ in
    rw (or_return-eq-returned _ parsed, or_return-eq-returned _ read)
      (ap returned (bytes_eq_sound _ _ kid))

-- Whatever verify returns without a limit on the drift carries a time, so that with a limit it is
-- returned as well, at any moment that is not too far from that time, and otherwise the error is
-- ErrStaleSignature.
pub verify_embedded-limit :
    (message auth : Bytes) (verifier : Verifier) (domain : Bytes) (now : ℤ) (payload : Bytes)
    → verify_embedded message auth verifier domain none now ≡ returned payload
    → (timestamp : ℤ) × ((limit : ℕ) (later : ℤ)
        → verify_embedded message auth verifier domain (some limit) later ≡ (
            if ltb limit (drift later timestamp) then failed stale_signature else returned payload))
unfolding verify_embedded is_stale
verify_embedded-limit message auth verifier domain now payload h =
    let a = (verify_embedded_iff message auth verifier domain none now payload).0 h in
    (
      header_time a.header,
      λ limit later.
          rw
            (
              a.is_aad,
              a.parsed,
              a.has_payload,
              verify_sig_header-GoodHeader _ verifier a.header a.good,
            )
            (elim (Bool-cases (ltb limit (drift later (header_time a.header)))) [
              | inl late ↦ rw late
              | inr early ↦ rw (early, a.verified)
            ]),
    )

-- A message that verify returns a payload of is refused by verifyDetached, as one with an
-- unexpected payload.
pub verify_null-verify_embedded :
    (message auth : Bytes) (verifier : Verifier) (domain : Bytes) (max_drift : Option ℕ) (now : ℤ)
    (payload : Bytes)
    → verify_embedded message auth verifier domain max_drift now ≡ returned payload
    → verify_null message auth verifier domain max_drift now ≡ failed unexpected_payload
unfolding verify_null
verify_null-verify_embedded message auth verifier domain max_drift now payload h =
    let a = (verify_embedded_iff message auth verifier domain max_drift now payload).0 h in
    rw (a.is_aad, a.parsed, a.has_payload)
