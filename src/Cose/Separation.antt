-- ===== src/Cose/Separation.antt =====
-- A signature stands for one domain, one authenticated message and one payload: the structures that
-- cose/cose.go signs are never alike for two of them.
use darkbio_crypto_go.Base.{
  ℕ, true, ◌≡◌, refl, sym, ap, ◌∙◌, subst, Option, none, some, [], ◌++◌, length, drop, append-nil,
  arith, drop-append,
}
use darkbio_crypto_go.Base.Int.{ℤ}
use darkbio_crypto_go.Cbor.Types.{Bytes, IsLength, ok, ok-injective}
use darkbio_crypto_go.Cbor.Layout.{header}
use darkbio_crypto_go.Cbor.Decoder.{Decoder, done, new_decoder}
use darkbio_crypto_go.Cbor.Cursor.{IsAt}
use darkbio_crypto_go.Cbor.Encoder.{encode_text}
use darkbio_crypto_go.Cbor.Utf8
use darkbio_crypto_go.Cbor.Methods.{bytes_encoding, text_encoding, decode_bytes-Reads}
use darkbio_crypto_go.Reflect.Types.{zero_value, byte_slice}
use darkbio_crypto_go.Reflect.Marshal.{marshal}
use darkbio_crypto_go.Reflect.Typed.{WellTyped, zero_value-WellTyped}
use darkbio_crypto_go.Reflect.WellTyped.{unmarshal-WellTyped}
use darkbio_crypto_go.Cose.Outcome.{returned}
use darkbio_crypto_go.Cose.Types.{
  domain_prefix, cose_sign1, signature_context, bytes_of, sign1_protected, sign1_signature,
  Verifier,
}
use darkbio_crypto_go.Cose.Sign.{marshal_aad, marshal_sig_structure}
use darkbio_crypto_go.Cose.Verify.{unmarshal_sign1, verify_embedded, verify_null, or_nil}
use darkbio_crypto_go.Cose.Accepting.{Accepted, verify_embedded_iff, verify_null_iff}
use darkbio_crypto_go.Cose.Layout.{
  aad_bytes, marshal_aad-aad_bytes, sig_structure_bytes, marshal_sig_structure-bytes,
}
use darkbio_crypto_go.Cose.RoundTrip.{Fits}

append_cancel : (xs ys zs : Bytes) → xs ++ ys ≡ xs ++ zs → ys ≡ zs
append_cancel xs ys zs h = sym (drop-append xs ys) ∙ ap (drop (length xs)) h ∙ drop-append xs zs

done-injective :
    {a b : Bytes} {d d' : Decoder} → done a d ≡ done b d' → (a ≡ b) × (d.cursor ≡ d'.cursor)
done-injective h = (cc, cc)

-- What follows a byte string is determined, and so is the byte string.
bytes_encoding_unique :
    (a b r s : Bytes)
    → IsLength (length a)
    → IsLength (length b)
    → bytes_encoding a ++ r ≡ bytes_encoding b ++ s
    → (a ≡ b) × (r ≡ s)
bytes_encoding_unique a b r s ha hb h =
    let start = new_decoder (bytes_encoding a ++ r) in
    let at_a : IsAt start (bytes_encoding a ++ r) = record { fits = omega arith; here = refl } in
    let at_b : IsAt start (bytes_encoding b ++ s) = record { fits = omega arith; here = h } in
    let read_a = decode_bytes-Reads a ha start r at_a in
    let read_b = decode_bytes-Reads b hb start s at_b in
    let same = done-injective (sym read_a ∙ read_b) in
    (
      same.0,
      append_cancel (bytes_encoding b) r s
          (subst (λ (x : Bytes). bytes_encoding x ++ r ≡ bytes_encoding b ++ s) same.0 h),
    )

aad_bytes-injective :
    (d d' a a' : Bytes)
    → IsLength (length (domain_prefix ++ d))
    → IsLength (length (domain_prefix ++ d'))
    → aad_bytes d a ≡ aad_bytes d' a'
    → (d ≡ d') × (a ≡ a')
aad_bytes-injective d d' a a' hd hd' h =
    let (same, rest) =
      bytes_encoding_unique (domain_prefix ++ d) (domain_prefix ++ d') a a' hd hd'
        (append_cancel (header 4 2) _ _ h) in
    (append_cancel domain_prefix d d' same, rest)

sig_structure_bytes-injective :
    (p p' a a' b b' : Bytes)
    → IsLength (length p)
    → IsLength (length p')
    → IsLength (length a)
    → IsLength (length a')
    → IsLength (length b)
    → IsLength (length b')
    → sig_structure_bytes p a b ≡ sig_structure_bytes p' a' b'
    → (a ≡ a') × (b ≡ b')
sig_structure_bytes-injective p p' a a' b b' hp hp' ha ha' hb hb' h =
    let start =
      append_cancel (text_encoding signature_context) _ _ (append_cancel (header 4 4) _ _ h) in
    let (e, rest) = bytes_encoding_unique p p' _ _ hp hp' start in
    let (same_a, last) = bytes_encoding_unique a a' _ _ ha ha' rest in
    let last_nil : bytes_encoding b ++ [] ≡ bytes_encoding b' ++ [] =
      append-nil (bytes_encoding b) ∙ last ∙ sym (append-nil (bytes_encoding b')) in
    (same_a, (bytes_encoding_unique b b' [] [] hb hb' last_nil).0)

-- `message` is what signAt has signed for a domain, an authenticated message and a payload that the
-- log knows (for signDetachedAt the payload is empty).
pub record WasSigned (log : Bytes → Bytes → Bytes → Type 0) (message : Bytes) : Type 0 where
  pub domain : Bytes
  pub auth : Bytes
  pub payload : Bytes
  pub protected : Bytes
  pub aad : Bytes
  pub logged : log domain auth payload
  pub fits : Fits domain auth payload
  pub protected_fits : IsLength (length protected)
  pub is_aad : marshal_aad domain auth ≡ ok aad
  pub structure : marshal_sig_structure (some protected) aad payload ≡ ok message

WasSigned-bytes :
    (log : Bytes → Bytes → Bytes → Type 0) (message : Bytes) (w : WasSigned log message)
    → message ≡ sig_structure_bytes w.protected (aad_bytes w.domain w.auth) w.payload
WasSigned-bytes log message w =
    let is_aad : w.aad ≡ aad_bytes w.domain w.auth =
      ok-injective (sym w.is_aad ∙ marshal_aad-aad_bytes w.domain w.auth w.fits.domain_fits) in
    ok-injective (
      sym w.structure
      ∙ ap (λ (a : Bytes). marshal_sig_structure (some w.protected) a w.payload) is_aad
      ∙ marshal_sig_structure-bytes w.protected (aad_bytes w.domain w.auth) w.payload
          w.protected_fits w.fits.aad_fits w.fits.embed_fits)

-- Without a protected header nothing is signed.
marshal_sig_structure-none :
    (aad payload : Bytes) → or_nil (marshal_sig_structure none aad payload) ≡ []
unfolding marshal_sig_structure marshal encode_text Utf8.valid
marshal_sig_structure-none aad payload = refl

nil-sig_structure_bytes : (p a b : Bytes) → [] ≡ sig_structure_bytes p a b → ⊥
unfolding header
nil-sig_structure_bytes p a b h = cc

module _ (log : Bytes → Bytes → Bytes → Type 0) (verifier : Verifier)
    (unforgeable : (m s : Bytes) → verifier.verify m s ≡ true → WasSigned log m)
    (message auth domain : Bytes) (max_drift : Option ℕ) (now : ℤ)
    (domain_fits : IsLength (length (domain_prefix ++ domain)))
    (aad_fits : IsLength (length (aad_bytes domain auth))) where
  structure-log :
      (protected : Option Bytes) (payload : Bytes)
      → WellTyped byte_slice protected
      → IsLength (length payload)
      → WasSigned log (or_nil (marshal_sig_structure protected (aad_bytes domain auth) payload))
      → log domain auth payload
  structure-log none payload hp hb w = absurd (
      nil-sig_structure_bytes _ _ _ (
        sym (marshal_sig_structure-none (aad_bytes domain auth) payload) ∙ WasSigned-bytes log _ w))
  structure-log (some p) payload hp hb w =
      let written = marshal_sig_structure-bytes p (aad_bytes domain auth) payload hp aad_fits hb in
      let same = sym (ap or_nil written) ∙ WasSigned-bytes log _ w in
      let (same_aad, same_payload) =
        sig_structure_bytes-injective p w.protected (aad_bytes domain auth)
          (aad_bytes w.domain w.auth) payload w.payload hp w.protected_fits aad_fits w.fits.aad_fits
          hb w.fits.embed_fits same in
      let (same_domain, same_auth) =
        aad_bytes-injective domain w.domain auth w.auth domain_fits w.fits.domain_fits same_aad in
      subst (λ (d : Bytes). log d auth payload) (sym same_domain)
        (subst (λ (a : Bytes). log w.domain a payload) (sym same_auth)
          (subst (λ (b : Bytes). log w.domain w.auth b) (sym same_payload) w.logged))

  Accepted-log :
      (payload : Option Bytes)
      → Accepted message auth verifier domain max_drift now payload
      → log domain auth (bytes_of payload)
  unfolding unmarshal_sign1
  Accepted-log payload a =
      let typed =
        unmarshal-WellTyped cose_sign1 message (zero_value cose_sign1) a.sign1
          (zero_value-WellTyped cose_sign1) a.parsed in
      let is_aad : a.aad ≡ aad_bytes domain auth =
        ok-injective (sym a.is_aad ∙ marshal_aad-aad_bytes domain auth domain_fits) in
      structure-log (sign1_protected a.sign1) (bytes_of payload) typed.1.0
        (payload_fits payload (subst (WellTyped byte_slice) a.has_payload typed.1.1.1.0))
        (unforgeable _ (sign1_signature a.sign1) (
          subst
            (λ (x : Bytes).
              verifier.verify
                (or_nil (marshal_sig_structure (sign1_protected a.sign1) x (bytes_of payload)))
                (sign1_signature a.sign1)
              ≡ true)
            is_aad a.verified))
    where
      payload_fits : (o : Option Bytes) → WellTyped byte_slice o → IsLength (length (bytes_of o))
      payload_fits none h = omega arith
      payload_fits (some b) h = h

  -- If nothing verifies but what signAt or signDetachedAt has signed for this key, then what verify
  -- returns was signed for just this domain and authenticated message, whose lengths are those of
  -- Go.
  pub verify_embedded-log :
      (payload : Bytes)
      → verify_embedded message auth verifier domain max_drift now ≡ returned payload
      → log domain auth payload
  verify_embedded-log payload h =
      Accepted-log (some payload)
        ((verify_embedded_iff message auth verifier domain max_drift now payload).0 h)

  -- The same for verifyDetached, where the payload is empty.
  pub verify_null-log :
      verify_null message auth verifier domain max_drift now ≡ returned tt → log domain auth []
  verify_null-log h =
      Accepted-log none ((verify_null_iff message auth verifier domain max_drift now).0 h)
