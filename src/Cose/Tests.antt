-- ===== src/Cose/Tests.antt =====
-- Concrete runs of the code of cose/cose.go, and its theorems at concrete inputs.
use darkbio_crypto_go.Base.{
  ℕ, ◌↔◌, ◌^◌, ◌-◌, ◌≡◌, refl, sym, ap, ◌∙◌, none, some, true, false, [], ◌∷◌, ◌++◌, length, arith,
  ltb, if◌then◌else◌,
}
use darkbio_crypto_go.Base.Int.{ℤ, pos, negsuc}
use darkbio_crypto_go.Cbor.Types.{Bytes, IsLength, ok}
use darkbio_crypto_go.Reflect.Types.{uint, bool, zeros, zero_value}
use darkbio_crypto_go.Reflect.Tags.{bytes_eq}
use darkbio_crypto_go.Reflect.Marshal.{marshal}
use darkbio_crypto_go.Reflect.Typed.{length-zeros}
use darkbio_crypto_go.Cbor.Layout.{header, info_of, width_of}
use darkbio_crypto_go.Cbor.BigEndian.{be_bytes, be_value}
use darkbio_crypto_go.Cbor.Encoder.{
  encode_uint, encode_length, encode_bool, encode_int, encode_bytes, encode_map_header,
  encode_array_header, encode_text,
}
use darkbio_crypto_go.Cbor.Verify.{map_key_cmp, compare_bytes}
use darkbio_crypto_go.Cbor.Utf8
use darkbio_crypto_go.Cbor.Decoder.{
  decode_header, read_info, is_canonical, decode_int, finish, peek_null, decode_bytes,
  decode_bytes_fixed, decode_uint, decode_map_header, decode_array_header,
}
use darkbio_crypto_go.Reflect.Unmarshal.{unmarshal, decode_struct, set_uint, set_int}
use darkbio_crypto_go.Cose.Outcome.{returned, failed, stale_signature, unexpected_payload}
use darkbio_crypto_go.Cose.Types.{Signer, Verifier, Sealer, Opener, signature_size}
use darkbio_crypto_go.Cose.Drift.{is_stale, drift}
use darkbio_crypto_go.Cose.Sign.{sign_null, sign_at}
use darkbio_crypto_go.Cose.Verify.{verify_embedded, verify_null, verify_at, peek_payload, signer}
use darkbio_crypto_go.Cose.Accepting.{
  Accepted, verify_embedded_iff, verify_null_iff, bytes_eq_sound,
}
use darkbio_crypto_go.Cose.Layout.{
  aad_bytes, sig_structure_bytes, marshal_aad-aad_bytes, marshal_sig_structure-bytes,
}
use darkbio_crypto_go.Cose.RoundTrip.{KeyPair, Fits, verify_null-sign_null}
use darkbio_crypto_go.Cose.Agreement.{
  peek_payload-verify_at, verify_embedded-limit, verify_null-verify_embedded,
}
use darkbio_crypto_go.Cose.Separation.{WasSigned, verify_embedded-log}
use darkbio_crypto_go.Cose.Distance.{is_stale-distance}

-- A signature of zeros, which every message has.
abbrev toy_signer : Signer
toy_signer = record { fingerprint = zeros 32; sign = λ m. some (zeros signature_size) }

abbrev toy_verifier : Verifier
toy_verifier = record { fingerprint = zeros 32; verify = λ m s. true }

toy_keys : KeyPair toy_signer toy_verifier
toy_keys = record {
  same_fingerprint = refl;
  sized = refl;
  signs = λ m. (zeros signature_size, refl, length-zeros signature_size, refl);
}

abbrev toy_domain : Bytes
toy_domain = b't' ∷ b'o' ∷ b'y' ∷ []

-- Marshal of the uint64 7 and of true.
abbrev seven_bytes : Bytes
seven_bytes = 7 ∷ []

abbrev true_bytes : Bytes
true_bytes = 0xf5 ∷ []

toy-Fits : (n : Bytes) → IsLength (length n) → Fits toy_domain true_bytes n
unfolding header info_of width_of be_bytes
toy-Fits n h = record { domain_fits = omega arith; aad_fits = omega arith; embed_fits = h }

-- Ten seconds of drift, with a limit of sixty.
toy_fresh : is_stale (some 60) (pos 1_010) (pos 1_000) ≡ false
unfolding is_stale
toy_fresh = refl

-- The longest possible distance wraps around to one second.
wrapped_drift : is_stale (some 1) (pos (2 ^ 63 - 1)) (negsuc (2 ^ 63 - 1)) ≡ false
unfolding is_stale
wrapped_drift = refl

-- The message in bytes: the protected header, the payload and the signature.
abbrev toy_header : Bytes
toy_header =
    (0xa4
      ∷ 1
      ∷ 0x3a
      ∷ 0
      ∷ 1
      ∷ 0x11
      ∷ 0x6f
      ∷ 2
      ∷ 0x81
      ∷ 0x3a
      ∷ 0
      ∷ 1
      ∷ 0x11
      ∷ 0x71
      ∷ 4
      ∷ 0x58
      ∷ 32
      ∷ zeros 32)
    ++ (0x3a ∷ 0 ∷ 1 ∷ 0x11 ∷ 0x71 ∷ 0x19 ∷ 3 ∷ 0xe8 ∷ [])

abbrev toy_message : Bytes
toy_message =
    ((0x84 ∷ 0x58 ∷ 57 ∷ toy_header) ++ (0xa0 ∷ 0x41 ∷ 7 ∷ 0x59 ∷ 0x0d ∷ 0x2d ∷ []))
    ++ zeros signature_size

sign-toy : sign_at (uint 64) 7 bool true toy_signer toy_domain (pos 1_000) ≡ returned toy_message
unfolding sign_at marshal map_key_cmp compare_bytes encode_int encode_length encode_bool encode_uint
    encode_bytes encode_map_header encode_array_header encode_text Utf8.valid be_bytes
sign-toy = refl

verify-toy :
    verify_at (uint 64) toy_message bool true toy_verifier toy_domain (some 60) (pos 1_010)
    ≡ returned 7
unfolding verify_at marshal unmarshal decode_struct decode_map_header decode_array_header
    decode_header read_info is_canonical decode_int peek_null decode_bytes decode_bytes_fixed
    map_key_cmp compare_bytes encode_int encode_length decode_uint finish set_uint set_int
    zero_value be_bytes be_value encode_bool encode_bytes encode_map_header encode_array_header
    encode_text Utf8.valid
verify-toy = refl

verify_embedded_iff_example :
    verify_embedded toy_message true_bytes toy_verifier toy_domain (some 60) (pos 1_010)
      ≡ returned seven_bytes
    ↔ Accepted toy_message true_bytes toy_verifier toy_domain
        (some 60)
        (pos 1_010)
        (some seven_bytes)
verify_embedded_iff_example =
    verify_embedded_iff toy_message true_bytes toy_verifier toy_domain (some 60) (pos 1_010)
      seven_bytes

verify_null_iff_example :
    verify_null toy_message true_bytes toy_verifier toy_domain (some 60) (pos 1_010) ≡ returned tt
    ↔ Accepted toy_message true_bytes toy_verifier toy_domain (some 60) (pos 1_010) none
verify_null_iff_example =
    verify_null_iff toy_message true_bytes toy_verifier toy_domain (some 60) (pos 1_010)

verify_null-sign_null_example :
    (message : Bytes) × (sign_null true_bytes toy_signer toy_domain (pos 1_000) ≡ returned message)
    × (verify_null message true_bytes toy_verifier toy_domain (some 60) (pos 1_010) ≡ returned tt)
verify_null-sign_null_example =
    verify_null-sign_null toy_signer toy_verifier toy_keys toy_domain true_bytes (pos 1_000)
      (pos 1_010) (some 60) (omega arith) toy_fresh (toy-Fits [] (omega arith))

-- The ciphertext is the message itself.
abbrev toy_sealer : Sealer
toy_sealer = record { fingerprint = zeros 32; seal = λ m aad info. some (zeros 1120, m) }

abbrev toy_opener : Opener
toy_opener = record { fingerprint = zeros 32; open_ = λ key c aad info. some c }

peek_payload-verify_at_example :
    (peek_payload (uint 64) toy_message ≡ returned 7) × (signer toy_message ≡ returned (zeros 32))
peek_payload-verify_at_example =
    peek_payload-verify_at (uint 64) toy_message bool true toy_verifier toy_domain (some 60)
      (pos 1_010) 7 verify-toy

-- A verifier that accepts one message only, and the log of it.
abbrev strict_verifier : Verifier
strict_verifier = record {
  fingerprint = zeros 32;
  verify = λ m s.
      bytes_eq m (sig_structure_bytes toy_header (aad_bytes toy_domain true_bytes) seven_bytes);
}

abbrev ToyLog : Bytes → Bytes → Bytes → Type 0
ToyLog domain auth payload = (domain ≡ toy_domain) × (auth ≡ true_bytes) × (payload ≡ seven_bytes)

strict_unforgeable : (m s : Bytes) → strict_verifier.verify m s ≡ true → WasSigned ToyLog m
strict_unforgeable m s h = record {
  domain = toy_domain;
  auth = true_bytes;
  payload = seven_bytes;
  protected = toy_header;
  aad = aad_bytes toy_domain true_bytes;
  logged = (refl, refl, refl);
  fits = toy-Fits seven_bytes (omega arith);
  protected_fits = omega arith;
  is_aad = marshal_aad-aad_bytes toy_domain true_bytes (omega arith);
  structure =
      marshal_sig_structure-bytes toy_header (aad_bytes toy_domain true_bytes) seven_bytes
        (omega arith) (toy-Fits seven_bytes (omega arith)).aad_fits (omega arith)
      ∙ ap ok (sym (bytes_eq_sound _ _ h));
}

verify_embedded-strict :
    verify_embedded toy_message true_bytes strict_verifier toy_domain none (pos 1_010)
    ≡ returned seven_bytes
unfolding verify_embedded marshal unmarshal decode_struct decode_map_header decode_array_header
    decode_header read_info is_canonical decode_int peek_null decode_bytes decode_bytes_fixed
    map_key_cmp compare_bytes encode_int encode_length finish set_int zero_value be_bytes be_value
    encode_bytes encode_map_header encode_array_header encode_text Utf8.valid header info_of
    width_of
verify_embedded-strict = refl

verify_embedded-log_example : ToyLog toy_domain true_bytes seven_bytes
verify_embedded-log_example =
    verify_embedded-log ToyLog strict_verifier strict_unforgeable toy_message true_bytes toy_domain
      none (pos 1_010) (omega arith) (toy-Fits [] (omega arith)).aad_fits seven_bytes
      verify_embedded-strict

is_stale-distance_example :
    is_stale (some 60) (pos 1_010) (negsuc 4)
    ≡ ltb 60 (if ltb (2 ^ 63) 1015 then 2 ^ 64 - 1015 else 1015)
is_stale-distance_example = is_stale-distance 60 (pos 1_010) (negsuc 4) (omega arith) (omega arith)

verify_embedded-limit_example :
    (timestamp : ℤ) × ((limit : ℕ) (later : ℤ)
      → verify_embedded toy_message true_bytes strict_verifier toy_domain (some limit) later ≡ (
          if ltb limit (drift later timestamp)
          then failed stale_signature
          else returned seven_bytes))
verify_embedded-limit_example =
    verify_embedded-limit toy_message true_bytes strict_verifier toy_domain (pos 1_010) seven_bytes
      verify_embedded-strict

verify_null-verify_embedded_example :
    verify_null toy_message true_bytes strict_verifier toy_domain none (pos 1_010)
    ≡ failed unexpected_payload
verify_null-verify_embedded_example =
    verify_null-verify_embedded toy_message true_bytes strict_verifier toy_domain none (pos 1_010)
      seven_bytes verify_embedded-strict
