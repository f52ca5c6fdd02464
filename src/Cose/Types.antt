-- ===== src/Cose/Types.antt =====
-- The constants and structs of cose/cose.go, as Go types with the struct tags of the source, so
-- that Marshal and Unmarshal work on them.
use darkbio_crypto_go.Base.{ℕ, Option, none, some, Bool, true, false, [], ◌∷◌}
use darkbio_crypto_go.Base.Int.{ℤ, negsuc}
use darkbio_crypto_go.Cbor.Types.{Bytes}
use darkbio_crypto_go.Reflect.Types.{
  FieldInfo, Ty, Fields, Val, int, string, raw, byte_slice, byte_array, struct, no_fields, field,
}
use darkbio_crypto_go.Reflect.Tags.{array_word, key_word, optional_word}

-- "dark-bio-v1:"
abbrev pub domain_prefix : Bytes
domain_prefix =
    b'd' ∷ b'a' ∷ b'r' ∷ b'k' ∷ b'-' ∷ b'b' ∷ b'i' ∷ b'o' ∷ b'-' ∷ b'v' ∷ b'1' ∷ b':' ∷ []

abbrev pub algorithm_xdsa : ℤ
algorithm_xdsa = negsuc 69_999

abbrev pub algorithm_xhpke : ℤ
algorithm_xhpke = negsuc 70_000

abbrev pub header_timestamp : ℤ
header_timestamp = negsuc 70_001

abbrev pub fingerprint_size : ℕ
fingerprint_size = 32

abbrev pub signature_size : ℕ
signature_size = 3373

abbrev pub encap_key_size : ℕ
encap_key_size = 1120

-- An exported field, with its tag.
abbrev pub named : Bytes → Bytes → FieldInfo
named name tag = record { name = name; exported = true; tag = tag }

-- `_ struct{} cbor:"_,array"` in front of the other fields.
abbrev pub array_of : Fields → Fields
array_of =
    field (record { name = b'_' ∷ []; exported = false; tag = b'_' ∷ b',' ∷ array_word })
      (struct no_fields)

abbrev pub crit_header : Ty
crit_header = struct (
    array_of (
      field (named (b'T' ∷ b'i' ∷ b'm' ∷ b'e' ∷ b's' ∷ b't' ∷ b'a' ∷ b'm' ∷ b'p' ∷ []) []) (int 64)
        no_fields))

abbrev pub algorithm_field : FieldInfo
algorithm_field =
    named (b'A' ∷ b'l' ∷ b'g' ∷ b'o' ∷ b'r' ∷ b'i' ∷ b't' ∷ b'h' ∷ b'm' ∷ [])
      (b'1' ∷ b',' ∷ key_word)

abbrev pub crit_field : FieldInfo
crit_field = named (b'C' ∷ b'r' ∷ b'i' ∷ b't' ∷ []) (b'2' ∷ b',' ∷ key_word)

abbrev pub kid_field : FieldInfo
kid_field = named (b'K' ∷ b'i' ∷ b'd' ∷ []) (b'4' ∷ b',' ∷ key_word)

abbrev pub timestamp_field : FieldInfo
timestamp_field =
    named (b'T' ∷ b'i' ∷ b'm' ∷ b'e' ∷ b's' ∷ b't' ∷ b'a' ∷ b'm' ∷ b'p' ∷ [])
      (b'-' ∷ b'7' ∷ b'0' ∷ b'0' ∷ b'0' ∷ b'2' ∷ b',' ∷ key_word)

abbrev pub sig_protected_header : Ty
sig_protected_header = struct (
    field algorithm_field (int 64) (
      field crit_field crit_header
        (field kid_field (byte_array fingerprint_size) (field timestamp_field (int 64) no_fields))))

abbrev pub enc_protected_header : Ty
enc_protected_header =
    struct
      (field algorithm_field (int 64) (field kid_field (byte_array fingerprint_size) no_fields))

abbrev pub empty_header : Ty
empty_header = struct no_fields

abbrev pub encap_key_header : Ty
encap_key_header = struct (
    field
      (named (b'E' ∷ b'n' ∷ b'c' ∷ b'a' ∷ b'p' ∷ b'K' ∷ b'e' ∷ b'y' ∷ [])
        (b'-' ∷ b'4' ∷ b',' ∷ key_word))
      byte_slice no_fields)

abbrev pub protected_field : FieldInfo
protected_field = named (b'P' ∷ b'r' ∷ b'o' ∷ b't' ∷ b'e' ∷ b'c' ∷ b't' ∷ b'e' ∷ b'd' ∷ []) []

abbrev pub unprotected_field : FieldInfo
unprotected_field =
    named (b'U' ∷ b'n' ∷ b'p' ∷ b'r' ∷ b'o' ∷ b't' ∷ b'e' ∷ b'c' ∷ b't' ∷ b'e' ∷ b'd' ∷ []) []

abbrev pub payload_name : Bytes
payload_name = b'P' ∷ b'a' ∷ b'y' ∷ b'l' ∷ b'o' ∷ b'a' ∷ b'd' ∷ []

abbrev pub context_field : FieldInfo
context_field = named (b'C' ∷ b'o' ∷ b'n' ∷ b't' ∷ b'e' ∷ b'x' ∷ b't' ∷ []) []

abbrev pub external_aad_field : FieldInfo
external_aad_field =
    named (b'E' ∷ b'x' ∷ b't' ∷ b'e' ∷ b'r' ∷ b'n' ∷ b'a' ∷ b'l' ∷ b'A' ∷ b'A' ∷ b'D' ∷ []) []

abbrev pub cose_sign1 : Ty
cose_sign1 = struct (
    array_of (
      field protected_field byte_slice (
        field unprotected_field empty_header (
          field (named payload_name (b'_' ∷ b',' ∷ optional_word)) byte_slice (
            field (named (b'S' ∷ b'i' ∷ b'g' ∷ b'n' ∷ b'a' ∷ b't' ∷ b'u' ∷ b'r' ∷ b'e' ∷ []) [])
              (byte_array signature_size) no_fields)))))

abbrev pub cose_encrypt0 : Ty
cose_encrypt0 = struct (
    array_of (
      field protected_field byte_slice (
        field unprotected_field encap_key_header (
          field
            (named (b'C' ∷ b'i' ∷ b'p' ∷ b'h' ∷ b'e' ∷ b'r' ∷ b't' ∷ b'e' ∷ b'x' ∷ b't' ∷ []) [])
            byte_slice no_fields))))

abbrev pub sig_structure : Ty
sig_structure = struct (
    array_of (
      field context_field string (
        field protected_field byte_slice (
          field external_aad_field byte_slice
            (field (named payload_name []) byte_slice no_fields)))))

abbrev pub enc_structure : Ty
enc_structure = struct (
    array_of (
      field context_field string
        (field protected_field byte_slice (field external_aad_field byte_slice no_fields))))

abbrev pub sig_aad : Ty
sig_aad = struct (
    array_of (
      field (named (b'I' ∷ b'n' ∷ b'f' ∷ b'o' ∷ []) []) byte_slice (
        field (named (b'M' ∷ b's' ∷ b'g' ∷ b'T' ∷ b'o' ∷ b'A' ∷ b'u' ∷ b't' ∷ b'h' ∷ []) []) raw
          no_fields)))

-- "Signature1" and "Encrypt0"
abbrev pub signature_context : Bytes
signature_context = b'S' ∷ b'i' ∷ b'g' ∷ b'n' ∷ b'a' ∷ b't' ∷ b'u' ∷ b'r' ∷ b'e' ∷ b'1' ∷ []

abbrev pub encrypt_context : Bytes
encrypt_context = b'E' ∷ b'n' ∷ b'c' ∷ b'r' ∷ b'y' ∷ b'p' ∷ b't' ∷ b'0' ∷ []

-- The fields of a COSE_Sign1 and of its protected header, by their names.
abbrev pub sign1_of : Option Bytes → Option Bytes → Bytes → Val cose_sign1
sign1_of protected payload signature = (tt, (protected, (tt, (payload, (signature, tt)))))

abbrev pub sign1_protected : Val cose_sign1 → Option Bytes
sign1_protected v = v.1.0

abbrev pub sign1_payload : Val cose_sign1 → Option Bytes
sign1_payload v = v.1.1.1.0

abbrev pub sign1_signature : Val cose_sign1 → Bytes
sign1_signature v = v.1.1.1.1.0

abbrev pub sig_header_of : ℤ → ℤ → Bytes → ℤ → Val sig_protected_header
sig_header_of algorithm crit kid timestamp = (algorithm, ((tt, (crit, tt)), (kid, (timestamp, tt))))

abbrev pub header_algorithm : Val sig_protected_header → ℤ
header_algorithm v = v.0

abbrev pub header_crit : Val sig_protected_header → ℤ
header_crit v = v.1.0.1.0

abbrev pub header_kid : Val sig_protected_header → Bytes
header_kid v = v.1.1.0

abbrev pub header_time : Val sig_protected_header → ℤ
header_time v = v.1.1.1.0

abbrev pub encrypt0_of : Option Bytes → Option Bytes → Option Bytes → Val cose_encrypt0
encrypt0_of protected encap_key ciphertext = (tt, (protected, ((encap_key, tt), (ciphertext, tt))))

abbrev pub encrypt0_protected : Val cose_encrypt0 → Option Bytes
encrypt0_protected v = v.1.0

abbrev pub encrypt0_encap_key : Val cose_encrypt0 → Option Bytes
encrypt0_encap_key v = v.1.1.0.0

abbrev pub encrypt0_ciphertext : Val cose_encrypt0 → Option Bytes
encrypt0_ciphertext v = v.1.1.1.0

abbrev pub enc_header_of : ℤ → Bytes → Val enc_protected_header
enc_header_of algorithm kid = (algorithm, (kid, tt))

-- What a function that takes a []byte sees of a slice that may be nil.
abbrev pub bytes_of : Option Bytes → Bytes
bytes_of none = []
bytes_of (some b) = b

-- xdsa.Signer: the fingerprint of its PublicKey(), and what Sign returns; `none` is the nil
-- signature that stands beside an error.
pub record Signer : Type 0 where
  pub fingerprint : Bytes
  pub sign : Bytes → Option Bytes

-- xdsa.PublicKey, as far as it is used: Fingerprint, and whether Verify returns no error.
pub record Verifier : Type 0 where
  pub fingerprint : Bytes
  pub verify : Bytes → Bytes → Bool

-- xhpke.PublicKey: Seal(message, aad, info) gives an encapsulated key and a ciphertext.
pub record Sealer : Type 0 where
  pub fingerprint : Bytes
  pub seal : Bytes → Bytes → Bytes → Option (Bytes × Bytes)

-- xhpke.SecretKey: Open(encapKey, ciphertext, aad, info).
pub record Opener : Type 0 where
  pub fingerprint : Bytes
  pub open_ : Bytes → Bytes → Bytes → Bytes → Option Bytes
