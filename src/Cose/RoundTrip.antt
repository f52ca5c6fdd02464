-- ===== src/Cose/RoundTrip.antt =====
-- What SignAt signs, VerifyAt accepts (cose/cose.go).
use darkbio_crypto_go.Base.{
  ℕ, ◌≡◌, refl, sym, ◌∙◌, Option, none, some, true, false, ◌++◌, [], length, arith,
}
use darkbio_crypto_go.Base.Int.{ℤ, IsInt64}
use darkbio_crypto_go.Cbor.Types.{Bytes, IsLength, ok, ok-injective}
use darkbio_crypto_go.Reflect.Types.{Ty, Val, zero_value}
use darkbio_crypto_go.Reflect.Marshal.{marshal}
use darkbio_crypto_go.Reflect.Plain.{Plain}
use darkbio_crypto_go.Reflect.RoundTrip.{unmarshal-marshal}
use darkbio_crypto_go.Cose.Outcome.{returned, ◌>>=◌, or_panic}
use darkbio_crypto_go.Cose.Types.{
  domain_prefix, algorithm_xdsa, header_timestamp, fingerprint_size, signature_size, cose_sign1,
  sig_protected_header, sign1_of, sig_header_of, bytes_of, Signer, Verifier,
}
use darkbio_crypto_go.Cose.Drift.{is_stale}
use darkbio_crypto_go.Cose.Sign.{
  marshal_aad, marshal_sig_header, marshal_sig_structure, marshal_sign1, signature_of,
  sign_embedded, sign_null,
}
use darkbio_crypto_go.Cose.Verify.{
  unmarshal_sign1, unmarshal_sig_header, verify_embedded, verify_null, verify_at,
}
use darkbio_crypto_go.Cose.Accepting.{Accepted, verify_embedded_iff, verify_null_iff}
use darkbio_crypto_go.Cose.Wire.{Plain-sign1, Plain-sig_header}
use darkbio_crypto_go.Cose.Layout.{
  aad_bytes, marshal_aad-aad_bytes, marshal_sig_structure-bytes, marshal_sig_header-length,
}

-- A signer with its verifier: Sign gives signatures of the right size, which Verify accepts, and
-- both keys have one fingerprint.
pub record KeyPair (signer : Signer) (verifier : Verifier) : Type 0 where
  pub same_fingerprint : signer.fingerprint ≡ verifier.fingerprint
  pub sized : length signer.fingerprint ≡ fingerprint_size
  pub signs :
      (message : Bytes)
      → (s : Bytes) × (signer.sign message ≡ some s)
        × (length s ≡ signature_size)
        × (verifier.verify message s ≡ true)

-- The lengths of what is signed are those of Go.
pub record Fits (domain auth embed : Bytes) : Type 0 where
  pub domain_fits : IsLength (length (domain_prefix ++ domain))
  pub aad_fits : IsLength (length (aad_bytes domain auth))
  pub embed_fits : IsLength (length embed)

-- What signAt and signDetachedAt do, step by step, and that the result is accepted.
record Signed (signer : Signer) (verifier : Verifier) (domain auth : Bytes) (timestamp now : ℤ)
    (max_drift : Option ℕ) (payload : Option Bytes) : Type 0 where
  protected : Bytes
  to_be_signed : Bytes
  signature : Bytes
  message : Bytes
  aad_done : marshal_aad domain auth ≡ ok (aad_bytes domain auth)
  header_done : marshal_sig_header signer timestamp ≡ ok protected
  structure_done :
      marshal_sig_structure (some protected) (aad_bytes domain auth) (bytes_of payload)
      ≡ ok to_be_signed
  signature_done : signer.sign to_be_signed ≡ some signature
  message_done : marshal_sign1 (sign1_of (some protected) payload signature) ≡ ok message
  accepted : Accepted message auth verifier domain max_drift now payload

module _ (signer : Signer) (verifier : Verifier) (keys : KeyPair signer verifier)
    (domain auth : Bytes) (timestamp now : ℤ) (max_drift : Option ℕ) (in_range : IsInt64 timestamp)
    (fresh : is_stale max_drift now timestamp ≡ false) where
  sign-Signed :
      (payload : Option Bytes)
      → Fits domain auth (bytes_of payload)
      → Signed signer verifier domain auth timestamp now max_drift payload
  unfolding marshal_sig_header marshal_sign1 unmarshal_sign1 unmarshal_sig_header marshal
  sign-Signed payload fits =
      let (protected, header_done, header_read) =
        unmarshal-marshal sig_protected_header
          (sig_header_of algorithm_xdsa header_timestamp signer.fingerprint timestamp)
          (zero_value sig_protected_header)
          (Plain-sig_header algorithm_xdsa header_timestamp timestamp signer.fingerprint
            (omega arith) (omega arith) in_range keys.sized) in
      let small =
        marshal_sig_header-length signer timestamp protected in_range keys.sized header_done in
      let structure_done =
        marshal_sig_structure-bytes protected (aad_bytes domain auth) (bytes_of payload) small
          fits.aad_fits fits.embed_fits in
      let (signature, signature_done, sized, good) = keys.signs _ in
      let (message, message_done, message_read) =
        unmarshal-marshal cose_sign1 (sign1_of (some protected) payload signature)
          (zero_value cose_sign1)
          (Plain-sign1 protected signature payload small fits.embed_fits sized) in
      record {
        protected = protected;
        to_be_signed = _;
        signature = signature;
        message = message;
        aad_done = marshal_aad-aad_bytes domain auth fits.domain_fits;
        header_done = header_done;
        structure_done = structure_done;
        signature_done = signature_done;
        message_done = message_done;
        accepted = record {
          sign1 = sign1_of (some protected) payload signature;
          header = sig_header_of algorithm_xdsa header_timestamp signer.fingerprint timestamp;
          aad = aad_bytes domain auth;
          parsed = message_read;
          has_payload = refl;
          good = record {
            parsed = header_read;
            algorithm = refl;
            crit = refl;
            kid = keys.same_fingerprint;
          };
          fresh = fresh;
          is_aad = marshal_aad-aad_bytes domain auth fits.domain_fits;
          verified = rw structure_done good;
        };
      }

  -- signAt gives a message that verify accepts, with the embedded bytes as its result.
  pub verify_embedded-sign_embedded :
      (embed : Bytes)
      → Fits domain auth embed
      → (message : Bytes) × (sign_embedded embed auth signer domain timestamp ≡ returned message)
        × (verify_embedded message auth verifier domain max_drift now ≡ returned embed)
  unfolding sign_embedded
  verify_embedded-sign_embedded embed fits =
      let s = sign-Signed (some embed) fits in
      (
        s.message,
        rw (
          s.aad_done, s.header_done, s.structure_done, or_panic, ◌>>=◌, signature_of,
          s.signature_done, s.message_done,
        ),
        (verify_embedded_iff s.message auth verifier domain max_drift now embed).1 s.accepted,
      )

  -- With a matching pair of keys, signDetachedAt gives a message that verifyDetached accepts while
  -- it is fresh, if the lengths are those of Go.
  pub verify_null-sign_null :
      Fits domain auth []
      → (message : Bytes) × (sign_null auth signer domain timestamp ≡ returned message)
        × (verify_null message auth verifier domain max_drift now ≡ returned tt)
  unfolding sign_null
  verify_null-sign_null fits =
      let s = sign-Signed none fits in
      (
        s.message,
        rw (
          s.aad_done, s.header_done, s.structure_done, or_panic, ◌>>=◌, signature_of,
          s.signature_done, s.message_done,
        ),
        (verify_null_iff s.message auth verifier domain max_drift now).1 s.accepted,
      )

  pub verify_at-sign_embedded :
      (t : Ty) (v : Val t) (u : Ty) (a : Val u) (embed : Bytes)
      → Plain false t v false
      → marshal t v ≡ ok embed
      → marshal u a ≡ ok auth
      → Fits domain auth embed
      → (message : Bytes) × (sign_embedded embed auth signer domain timestamp ≡ returned message)
        × (verify_at t message u a verifier domain max_drift now ≡ returned v)
  unfolding verify_at
  verify_at-sign_embedded t v u a embed plain embedded authed fits =
      let (message, signed, accepted) = verify_embedded-sign_embedded embed fits in
      let (bs, written, read) = unmarshal-marshal t v (zero_value t) plain in
      let same : bs ≡ embed = ok-injective (sym written ∙ embedded) in
      (message, signed, rw (authed, accepted, ← same, read))
