-- ===== src/Cose/Wire.antt =====
-- The structs of cose/cose.go are read back as they were written.
use darkbio_crypto_go.Base.{Option, ◌≡◌, refl, none, some, false, length, inl, inr, arith}
use darkbio_crypto_go.Base.Int.{ℤ, pos, negsuc, IsInt64}
use darkbio_crypto_go.Cbor.Types.{Bytes, IsLength}
use darkbio_crypto_go.Cbor.Utf8
use darkbio_crypto_go.Reflect.Tags.{
  option_fields, want_array, map_fields, array_fields, has_exported,
}
use darkbio_crypto_go.Reflect.Numbers.{InWidth}
use darkbio_crypto_go.Reflect.Shape.{keyed_fields}
use darkbio_crypto_go.Reflect.Plain.{Plain}
use darkbio_crypto_go.Cose.Types.{
  cose_sign1, cose_encrypt0, sig_protected_header, enc_protected_header, empty_header,
  sig_structure, enc_structure, sign1_of, sig_header_of, enc_header_of, encrypt0_of, bytes_of,
  signature_size, fingerprint_size, signature_context, encrypt_context,
}

-- An int64 is in the range of a field of 64 bits.
Plain-IsInt64 : (k : ℤ) → IsInt64 k → IsInt64 k × InWidth 64 k
Plain-IsInt64 (pos n) h = (h, h)
Plain-IsInt64 (negsuc n) h = (h, h)

-- The empty map has no field, so its layout is one of a map.
Plain-empty_header : Plain false empty_header tt false
unfolding option_fields want_array map_fields keyed_fields has_exported
Plain-empty_header = (refl, inr ((refl, refl, omega arith, tt, inl refl), tt))

pub Plain-sign1 :
    (protected signature : Bytes) (payload : Option Bytes)
    → IsLength (length protected)
    → IsLength (length (bytes_of payload))
    → length signature ≡ signature_size
    → Plain false cose_sign1 (sign1_of (some protected) payload signature) false
unfolding option_fields want_array array_fields
Plain-sign1 protected signature (some payload) small h sized = (
  refl,
  inl (
    (refl, omega arith),
    (λ a b. refl, (small, (Plain-empty_header, (h, ((omega arith, sized), tt))))),
  ),
)
Plain-sign1 protected signature none small h sized = (
  refl,
  inl (
    (refl, omega arith),
    (λ a b. refl, (small, (Plain-empty_header, ((refl, refl), ((omega arith, sized), tt))))),
  ),
)

pub Plain-sig_header :
    (algorithm crit timestamp : ℤ) (kid : Bytes)
    → IsInt64 algorithm
    → IsInt64 crit
    → IsInt64 timestamp
    → length kid ≡ fingerprint_size
    → Plain false sig_protected_header (sig_header_of algorithm crit kid timestamp) false
unfolding option_fields want_array map_fields keyed_fields array_fields
Plain-sig_header algorithm crit timestamp kid ha hc ht sized = (
  refl,
  inr (
    (
      refl,
      refl,
      omega arith,
      (tt, (omega arith, (omega arith, (omega arith, tt)))),
      inr (omega arith),
    ),
    (
      Plain-IsInt64 algorithm ha,
      (
        (refl, inl ((refl, omega arith), (λ a b. refl, (Plain-IsInt64 crit hc, tt)))),
        ((omega arith, sized), (Plain-IsInt64 timestamp ht, tt)),
      ),
    ),
  ),
)

pub Plain-enc_header :
    (algorithm : ℤ) (kid : Bytes)
    → IsInt64 algorithm
    → length kid ≡ fingerprint_size
    → Plain false enc_protected_header (enc_header_of algorithm kid) false
unfolding option_fields want_array map_fields keyed_fields
Plain-enc_header algorithm kid ha sized = (
  refl,
  inr (
    (refl, refl, omega arith, (tt, (omega arith, tt)), inr (omega arith)),
    (Plain-IsInt64 algorithm ha, ((omega arith, sized), tt)),
  ),
)

pub Plain-encrypt0 :
    (protected encap_key ciphertext : Bytes)
    → IsLength (length protected)
    → IsLength (length encap_key)
    → IsLength (length ciphertext)
    → Plain false cose_encrypt0
        (encrypt0_of (some protected) (some encap_key) (some ciphertext))
        false
unfolding option_fields want_array array_fields map_fields keyed_fields
Plain-encrypt0 protected encap_key ciphertext hp he hc = (
  refl,
  inl (
    (refl, omega arith),
    (
      λ a b. refl,
      (
        hp,
        ((refl, inr ((refl, refl, omega arith, (tt, tt), inr (omega arith)), (he, tt))), (hc, tt)),
      ),
    ),
  ),
)

-- A Sig_structure and an Enc_structure.
pub Plain-sig_structure :
    (protected aad payload : Bytes)
    → IsLength (length protected)
    → IsLength (length aad)
    → IsLength (length payload)
    → Plain false sig_structure
        (tt, (signature_context, (some protected, (some aad, (some payload, tt)))))
        false
unfolding option_fields want_array array_fields Utf8.valid
Plain-sig_structure protected aad payload hp ha hb =
    (refl, inl ((refl, omega arith), (λ a b. refl, ((omega arith, refl), (hp, (ha, (hb, tt)))))))

pub Plain-enc_structure :
    (protected auth : Bytes)
    → IsLength (length protected)
    → IsLength (length auth)
    → Plain false enc_structure (tt, (encrypt_context, (some protected, (some auth, tt)))) false
unfolding option_fields want_array array_fields Utf8.valid
Plain-enc_structure protected auth hp ha =
    (refl, inl ((refl, omega arith), (λ a b. refl, ((omega arith, refl), (hp, (ha, tt))))))
