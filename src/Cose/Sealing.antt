-- ===== src/Cose/Sealing.antt =====
-- What SealAt seals, OpenAt opens (cose/cose.go).
use darkbio_crypto_go.Base.{◌+◌, ◌^◌, ◌<◌, ◌≡◌, some, ◌++◌, length, arith}
use darkbio_crypto_go.Cbor.Types.{Bytes, IsLength, ok}
use darkbio_crypto_go.Reflect.Types.{Ty, Val, zero_value}
use darkbio_crypto_go.Reflect.Marshal.{marshal}
use darkbio_crypto_go.Reflect.Plain.{Plain}
use darkbio_crypto_go.Reflect.RoundTrip.{unmarshal-marshal}
use darkbio_crypto_go.Cose.Outcome.{returned, ◌>>=◌, or_panic, present}
use darkbio_crypto_go.Cose.Types.{
  domain_prefix, algorithm_xhpke, fingerprint_size, encap_key_size, enc_protected_header,
  cose_encrypt0, enc_structure, encrypt_context, encrypt0_of, enc_header_of, Sealer, Opener,
}
use darkbio_crypto_go.Cose.Encrypt.{
  marshal_enc_header, marshal_enc_structure, marshal_encrypt0, unmarshal_encrypt0,
  unmarshal_enc_header, verify_enc_header, encrypt, decrypt,
}
use darkbio_crypto_go.Cose.Accepting.{bytes_eq_refl}
use darkbio_crypto_go.Cose.Wire.{Plain-enc_header, Plain-encrypt0, Plain-enc_structure}
use darkbio_crypto_go.Cose.Layout.{marshal_enc_header-length}

-- The longest message whose ciphertext, with its tag of 16 bytes, is a slice.
abbrev pub Sealable : Bytes → Type 0
Sealable message = length message + 16 < 2 ^ 63

-- A public key with its secret key: Seal gives an encapsulated key of its size and a ciphertext,
-- which Open opens, and both keys have one fingerprint.
pub record SealPair (sealer : Sealer) (opener : Opener) : Type 0 where
  pub same_fingerprint : sealer.fingerprint ≡ opener.fingerprint
  pub sized : length sealer.fingerprint ≡ fingerprint_size
  pub seals :
      (message aad info : Bytes)
      → Sealable message
      → (key : Bytes) × (ciphertext : Bytes) × (sealer.seal message aad info
          ≡ some (key, ciphertext))
        × (length key ≡ encap_key_size)
        × IsLength (length ciphertext)
        × (opener.open_ key ciphertext aad info ≡ some message)

module _ (sealer : Sealer) (opener : Opener) (keys : SealPair sealer opener) (domain auth : Bytes)
    (auth_fits : IsLength (length auth)) where
  header_checked :
      (protected : Bytes)
      → unmarshal_enc_header protected ≡ ok (enc_header_of algorithm_xhpke sealer.fingerprint)
      → verify_enc_header protected algorithm_xhpke opener ≡ returned tt
  unfolding verify_enc_header
  header_checked protected read =
      rw (read, ← keys.same_fingerprint, bytes_eq_refl sealer.fingerprint)

  marshal_enc_structure-total :
      (protected : Bytes)
      → IsLength (length protected)
      → (aad : Bytes) × (marshal_enc_structure (some protected) auth ≡ ok aad)
  unfolding marshal_enc_structure marshal
  marshal_enc_structure-total protected small =
      let (aad, done, read) =
        unmarshal-marshal enc_structure (tt, (encrypt_context, (some protected, (some auth, tt))))
          (zero_value enc_structure) (Plain-enc_structure protected auth small auth_fits) in
      (aad, done)

  marshal_enc_header-total :
      (protected : Bytes) × (marshal_enc_header sealer ≡ ok protected)
      × (unmarshal_enc_header protected ≡ ok (enc_header_of algorithm_xhpke sealer.fingerprint))
  unfolding marshal_enc_header unmarshal_enc_header marshal
  marshal_enc_header-total =
      unmarshal-marshal enc_protected_header (enc_header_of algorithm_xhpke sealer.fingerprint)
        (zero_value enc_protected_header)
        (Plain-enc_header algorithm_xhpke sealer.fingerprint (omega arith) keys.sized)

  marshal_encrypt0-total :
      (protected key ciphertext : Bytes)
      → IsLength (length protected)
      → IsLength (length key)
      → IsLength (length ciphertext)
      → (message : Bytes) × (marshal_encrypt0
            (encrypt0_of (some protected) (some key) (some ciphertext))
          ≡ ok message)
        × (unmarshal_encrypt0 message
            ≡ ok (encrypt0_of (some protected) (some key) (some ciphertext)))
  unfolding marshal_encrypt0 unmarshal_encrypt0 marshal
  marshal_encrypt0-total protected key ciphertext hp hk hc =
      unmarshal-marshal cose_encrypt0 (encrypt0_of (some protected) (some key) (some ciphertext))
        (zero_value cose_encrypt0) (Plain-encrypt0 protected key ciphertext hp hk hc)

  -- Encrypt gives a message that Decrypt turns back, where both are given messages to authenticate
  -- that are written alike.
  pub decrypt-encrypt :
      (signed : Bytes) (u : Ty) (a : Val u) (w : Ty) (b : Val w)
      → Sealable signed
      → marshal u a ≡ ok auth
      → marshal w b ≡ ok auth
      → (message : Bytes) × (encrypt signed u a sealer domain ≡ returned message)
        × (decrypt message w b opener domain ≡ returned signed)
  unfolding encrypt decrypt
  decrypt-encrypt signed u a w b sealable authed authed' =
      let (protected, header_done, header_read) = marshal_enc_header-total in
      let small = marshal_enc_header-length sealer protected keys.sized header_done in
      let (aad, aad_done) = marshal_enc_structure-total protected small in
      let (key, ciphertext, sealed, sized, fits, opened) =
        keys.seals signed aad (domain_prefix ++ domain) sealable in
      let (message, message_done, message_read) =
        marshal_encrypt0-total protected key ciphertext small (omega arith) fits in
      (
        message,
        rw (authed, header_done, aad_done, or_panic, ◌>>=◌, present, sealed, message_done),
        rw (authed', message_read, header_checked protected header_read, sized, aad_done, opened),
      )
