-- ===== src/Cose/Accepting.antt =====
-- What a COSE_Sign1 has to be for verify and verifyDetached (cose/cose.go) to accept it.
use darkbio_crypto_go.Base.{
  ℕ, ◌≡◌, ◌↔◌, refl, ap, sym, ◌∙◌, Option, none, some, Bool, true, false, not, [], ◌∷◌, arith,
}
use darkbio_crypto_go.Base.Int.{ℤ}
use darkbio_crypto_go.Cbor.Types.{Bytes, ok}
use darkbio_crypto_go.Reflect.Types.{Val}
use darkbio_crypto_go.Reflect.Tags.{bytes_eq}
use darkbio_crypto_go.Reflect.Following.{same_key_sound}
use darkbio_crypto_go.Cose.Outcome.{
  returned, or_return, present, unexpected_algorithm, unexpected_key, unexpected_payload,
  missing_payload, invalid_signature, stale_signature, >>=-eq-returned, or_return-eq-returned,
  present-eq-returned, guard-eq-returned, guard-eq-returned_tt, returned-injective,
}
use darkbio_crypto_go.Cose.Types.{
  algorithm_xdsa, header_timestamp, sig_protected_header, cose_sign1, sign1_protected,
  sign1_payload, sign1_signature, header_algorithm, header_crit, header_kid, header_time, bytes_of,
  Verifier,
}
use darkbio_crypto_go.Cose.Drift.{is_stale}
use darkbio_crypto_go.Cose.Sign.{marshal_aad, marshal_sig_structure}
use darkbio_crypto_go.Cose.Verify.{
  unmarshal_sign1, unmarshal_sig_header, verify_sig_header, or_nil, is_nil, verify_embedded,
  verify_null,
}

pub bytes_eq_sound : (a b : Bytes) → bytes_eq a b ≡ true → a ≡ b
unfolding bytes_eq
bytes_eq_sound [] [] h = refl
bytes_eq_sound [] (y ∷ ys) h = cc
bytes_eq_sound (x ∷ xs) [] h = cc
bytes_eq_sound (x ∷ xs) (y ∷ ys) h =
    let tail : xs ≡ ys = bytes_eq_sound xs ys (ground arith) in
    let head : x ≡ y = ground arith in cc

pub bytes_eq_refl : (a : Bytes) → bytes_eq a a ≡ true
unfolding bytes_eq
bytes_eq_refl [] = refl
bytes_eq_refl (x ∷ xs) = ground (arith, bytes_eq_refl xs)

-- A protected header names the algorithm, the critical label and the key of the verifier.
pub record GoodHeader (data_ : Bytes) (verifier : Verifier) (header : Val sig_protected_header)
    : Type 0 where
  pub parsed : unmarshal_sig_header data_ ≡ ok header
  pub algorithm : header_algorithm header ≡ algorithm_xdsa
  pub crit : header_crit header ≡ header_timestamp
  pub kid : header_kid header ≡ verifier.fingerprint

-- A COSE_Sign1 with this payload (`none` for null), of which the protected header is good and
-- fresh, and the signature verifies over the Sig_structure of the protected header, the domain, the
-- authenticated message and the payload.
pub record Accepted (message auth : Bytes) (verifier : Verifier) (domain : Bytes)
    (max_drift : Option ℕ) (now : ℤ) (payload : Option Bytes) : Type 0 where
  pub sign1 : Val cose_sign1
  pub header : Val sig_protected_header
  pub aad : Bytes
  pub parsed : unmarshal_sign1 message ≡ ok sign1
  pub has_payload : sign1_payload sign1 ≡ payload
  pub good : GoodHeader (bytes_of (sign1_protected sign1)) verifier header
  pub fresh : is_stale max_drift now (header_time header) ≡ false
  pub is_aad : marshal_aad domain auth ≡ ok aad
  pub verified :
      verifier.verify
        (or_nil (marshal_sig_structure (sign1_protected sign1) aad (bytes_of payload)))
        (sign1_signature sign1)
      ≡ true

verify_sig_header_inv :
    (data_ : Bytes) (verifier : Verifier) (header : Val sig_protected_header)
    → verify_sig_header data_ algorithm_xdsa verifier ≡ returned header
    → GoodHeader data_ verifier header
unfolding verify_sig_header
verify_sig_header_inv data_ verifier header h =
    let (found, e, h₁) = >>=-eq-returned (or_return (unmarshal_sig_header data_)) _ h in
    let (algorithm, h₂) = guard-eq-returned _ unexpected_algorithm _ h₁ in
    let (crit, h₃) = guard-eq-returned _ unexpected_algorithm _ h₂ in
    let (kid, h₄) = guard-eq-returned _ unexpected_key _ h₃ in
    let same : found ≡ header = returned-injective h₄ in
    record {
      parsed = or_return-eq-returned _ e ∙ ap ok same;
      algorithm = ap header_algorithm (sym same) ∙ same_key_sound _ _ algorithm;
      crit = ap header_crit (sym same) ∙ same_key_sound _ _ crit;
      kid = ap header_kid (sym same) ∙ bytes_eq_sound _ _ kid;
    }

pub verify_sig_header-GoodHeader :
    (data_ : Bytes) (verifier : Verifier) (header : Val sig_protected_header)
    → GoodHeader data_ verifier header
    → verify_sig_header data_ algorithm_xdsa verifier ≡ returned header
unfolding verify_sig_header
verify_sig_header-GoodHeader data_ verifier header g =
    rw (g.parsed, g.algorithm, g.crit, g.kid, bytes_eq_refl verifier.fingerprint)

not-false : (b : Bool) → not b ≡ true → b ≡ false
not-false true h = cc
not-false false h = refl

is_nil-none : (o : Option Bytes) → is_nil o ≡ true → o ≡ none
is_nil-none none h = refl
is_nil-none (some b) h = cc

module _ (message auth : Bytes) (verifier : Verifier) (domain : Bytes) (max_drift : Option ℕ)
    (now : ℤ) where
  verify_embedded_inv :
      (payload : Bytes)
      → verify_embedded message auth verifier domain max_drift now ≡ returned payload
      → Accepted message auth verifier domain max_drift now (some payload)
  unfolding verify_embedded
  verify_embedded_inv payload h =
      let (aad, is_aad, h₁) = >>=-eq-returned (or_return (marshal_aad domain auth)) _ h in
      let (sign1, parsed, h₂) = >>=-eq-returned (or_return (unmarshal_sign1 message)) _ h₁ in
      let (found, there, h₃) =
        >>=-eq-returned (present (sign1_payload sign1) missing_payload) _ h₂ in
      let (header, good, h₄) = >>=-eq-returned (verify_sig_header _ algorithm_xdsa verifier) _ h₃ in
      let (fresh, h₅) = guard-eq-returned _ stale_signature _ h₄ in
      let (verified, h₆) = guard-eq-returned _ invalid_signature _ h₅ in
      let same : found ≡ payload = returned-injective h₆ in
      record {
        sign1 = sign1;
        header = header;
        aad = aad;
        parsed = or_return-eq-returned _ parsed;
        has_payload = present-eq-returned _ _ there ∙ ap some same;
        good = verify_sig_header_inv _ verifier header good;
        fresh = not-false _ fresh;
        is_aad = or_return-eq-returned _ is_aad;
        verified = rw (← same) verified;
      }

  verify_null_inv :
      verify_null message auth verifier domain max_drift now ≡ returned tt
      → Accepted message auth verifier domain max_drift now none
  unfolding verify_null
  verify_null_inv h =
      let (aad, is_aad, h₁) = >>=-eq-returned (or_return (marshal_aad domain auth)) _ h in
      let (sign1, parsed, h₂) = >>=-eq-returned (or_return (unmarshal_sign1 message)) _ h₁ in
      let (empty, h₃) = guard-eq-returned (is_nil (sign1_payload sign1)) unexpected_payload _ h₂ in
      let (header, good, h₄) = >>=-eq-returned (verify_sig_header _ algorithm_xdsa verifier) _ h₃ in
      let (fresh, h₅) = guard-eq-returned _ stale_signature _ h₄ in
      let verified = guard-eq-returned_tt _ invalid_signature h₅ in
      record {
        sign1 = sign1;
        header = header;
        aad = aad;
        parsed = or_return-eq-returned _ parsed;
        has_payload = is_nil-none _ empty;
        good = verify_sig_header_inv _ verifier header good;
        fresh = not-false _ fresh;
        is_aad = or_return-eq-returned _ is_aad;
        verified = verified;
      }

  -- verify returns a payload exactly if the message is accepted with it.
  pub verify_embedded_iff :
      (payload : Bytes)
      → verify_embedded message auth verifier domain max_drift now ≡ returned payload
        ↔ Accepted message auth verifier domain max_drift now (some payload)
  unfolding verify_embedded
  verify_embedded_iff payload = (
    verify_embedded_inv payload,
    λ a. rw (
      a.is_aad,
      a.parsed,
      a.has_payload,
      verify_sig_header-GoodHeader _ verifier a.header a.good,
      a.fresh,
      a.verified,
    ),
  )

  -- verifyDetached returns no error exactly if the message is accepted without a payload.
  pub verify_null_iff :
      verify_null message auth verifier domain max_drift now ≡ returned tt
      ↔ Accepted message auth verifier domain max_drift now none
  unfolding verify_null
  verify_null_iff = (
    verify_null_inv,
    λ a. rw (
      a.is_aad,
      a.parsed,
      a.has_payload,
      verify_sig_header-GoodHeader _ verifier a.header a.good,
      a.fresh,
      a.verified,
    ),
  )
