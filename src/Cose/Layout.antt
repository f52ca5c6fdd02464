-- ===== src/Cose/Layout.antt =====
-- What the structures that are signed look like on the wire (cose/cose.go).
use darkbio_crypto_go.Base.{
  ℕ, subst, ◌+◌, ◌≤◌, ◌≡◌, ap, some, [], ◌++◌, length, length-append, arith, append_assoc,
}
use darkbio_crypto_go.Base.Int.{ℤ, pos, negsuc, IsInt64}
use darkbio_crypto_go.Cbor.Types.{Bytes, IsLength, ok, ok-injective}
use darkbio_crypto_go.Cbor.Layout.{header, encode_length-header, width_of}
use darkbio_crypto_go.Cbor.BigEndian.{length-be_bytes}
use darkbio_crypto_go.Cbor.Encoder.{
  Encoder, encode_int, encode_bytes, encode_text, encode_array_header, encode_map_header,
}
use darkbio_crypto_go.Cbor.Methods.{bytes_encoding, text_encoding, encode_int_appends}
use darkbio_crypto_go.Cbor.Utf8
use darkbio_crypto_go.Cbor.KeyOrder.{map_key_cmp-rank}
use darkbio_crypto_go.Reflect.Marshal.{marshal}
use darkbio_crypto_go.Reflect.Canonical.{encode_array_header-header, encode_map_header-header}
use darkbio_crypto_go.Cose.Types.{
  domain_prefix, signature_context, algorithm_xdsa, algorithm_xhpke, header_timestamp,
  fingerprint_size, Signer, Sealer,
}
use darkbio_crypto_go.Cose.Encrypt.{marshal_enc_header}
use darkbio_crypto_go.Cose.Sign.{marshal_aad, marshal_sig_structure, marshal_sig_header}

bytes_appended :
    (b : Bytes) (e : Encoder) → IsLength (length b) → encode_bytes b e ≡ e ++ bytes_encoding b
unfolding encode_bytes
bytes_appended b e h =
    rw (encode_length-header 2 (length b) e (omega arith) (omega arith)) (append_assoc e _ b)

-- The additional data: an array of the domain and the authenticated message.
abbrev pub aad_bytes : Bytes → Bytes → Bytes
aad_bytes domain auth = header 4 2 ++ (bytes_encoding (domain_prefix ++ domain) ++ auth)

pub marshal_aad-aad_bytes :
    (domain auth : Bytes)
    → IsLength (length (domain_prefix ++ domain))
    → marshal_aad domain auth ≡ ok (aad_bytes domain auth)
unfolding marshal_aad marshal
marshal_aad-aad_bytes domain auth h =
    rw
      (
        encode_array_header-header 2 [] (omega arith),
        bytes_appended (domain_prefix ++ domain) (header 4 2) h,
      )
      (ap ok (append_assoc (header 4 2) (bytes_encoding (domain_prefix ++ domain)) auth))

abbrev pub sig_structure_bytes : Bytes → Bytes → Bytes → Bytes
sig_structure_bytes protected aad payload =
    header 4 4
    ++ (text_encoding signature_context
        ++ (bytes_encoding protected ++ (bytes_encoding aad ++ bytes_encoding payload)))

pub marshal_sig_structure-bytes :
    (protected aad payload : Bytes)
    → IsLength (length protected)
    → IsLength (length aad)
    → IsLength (length payload)
    → marshal_sig_structure (some protected) aad payload
      ≡ ok (sig_structure_bytes protected aad payload)
unfolding marshal_sig_structure marshal encode_text Utf8.valid
marshal_sig_structure-bytes protected aad payload hp ha hb =
    let e₁ : Encoder = (header 4 4 ++ header 3 10) ++ signature_context in
    let e₂ = e₁ ++ bytes_encoding protected in
    rw
      (
        encode_array_header-header 4 [] (omega arith),
        encode_length-header 3 10 (header 4 4) (omega arith) (omega arith),
        bytes_appended protected e₁ hp,
        bytes_appended aad e₂ ha,
        bytes_appended payload (e₂ ++ bytes_encoding aad) hb,
      )
      (ap ok (simp append_assoc))

-- What one call appends is no longer than this.
length-header_le : (major n : ℕ) → length (header major n) ≤ 9
unfolding header width_of
length-header_le major n = ground (arith, length-be_bytes (width_of n) n)

module _ (n : ℕ) (e : Encoder) (h : length e ≤ n) where
  int-length : (k : ℤ) → IsInt64 k → length (encode_int k e) ≤ n + 9
  int-length (pos k) i =
      rw (encode_int_appends (pos k) e i)
        (omega (arith, length-append e (header 0 k), length-header_le 0 k))
  int-length (negsuc k) i =
      rw (encode_int_appends (negsuc k) e i)
        (omega (arith, length-append e (header 1 k), length-header_le 1 k))

  bytes-length : (b : Bytes) → IsLength (length b) → length (encode_bytes b e) ≤ n + 9 + length b
  bytes-length b i = rw (bytes_appended b e i) (
      omega (
        arith,
        length-append e (bytes_encoding b),
        length-append (header 2 (length b)) b,
        length-header_le 2 (length b),
      ))

  array-length : (k : ℕ) → IsLength k → length (encode_array_header (pos k) e) ≤ n + 9
  array-length k i =
      rw (encode_array_header-header k e i)
        (omega (arith, length-append e (header 4 k), length-header_le 4 k))

  map-length : (k : ℕ) → IsLength k → length (encode_map_header (pos k) e) ≤ n + 9
  map-length k i =
      rw (encode_map_header-header k e i)
        (omega (arith, length-append e (header 5 k), length-header_le 5 k))

-- The protected header of a signature, and that of an encryption.
pub marshal_sig_header-length :
    (signer : Signer) (timestamp : ℤ) (bs : Bytes)
    → IsInt64 timestamp
    → length signer.fingerprint ≡ fingerprint_size
    → marshal_sig_header signer timestamp ≡ ok bs
    → IsLength (length bs)
unfolding marshal_sig_header marshal
marshal_sig_header-length signer timestamp bs h sized r =
    let e₀ = map-length 0 [] (omega arith) 4 (omega arith) in
    let e₁ = int-length 9 _ e₀ (pos 1) (omega arith) in
    let e₂ = int-length 18 _ e₁ algorithm_xdsa (omega arith) in
    let e₃ = int-length 27 _ e₂ (pos 2) (omega arith) in
    let e₄ = array-length 36 _ e₃ 1 (omega arith) in
    let e₅ = int-length 45 _ e₄ header_timestamp (omega arith) in
    let e₆ = int-length 54 _ e₅ (pos 4) (omega arith) in
    let e₇ = bytes-length 63 _ e₆ signer.fingerprint (omega arith) in
    let e₈ = int-length (72 + length signer.fingerprint) _ e₇ (negsuc 70_001) (omega arith) in
    let e₉ = int-length (72 + length signer.fingerprint + 9) _ e₈ timestamp h in
    let written = ok-injective (
      rw
        (
          map_key_cmp-rank (negsuc 70_001) (pos 4) (omega arith) (omega arith),
          map_key_cmp-rank (pos 4) (pos 2) (omega arith) (omega arith),
          map_key_cmp-rank (pos 2) (pos 1) (omega arith) (omega arith),
        )
        at r) in
    subst (λ (b : Bytes). IsLength (length b)) written (omega (arith, e₉))

pub marshal_enc_header-length :
    (recipient : Sealer) (bs : Bytes)
    → length recipient.fingerprint ≡ fingerprint_size
    → marshal_enc_header recipient ≡ ok bs
    → IsLength (length bs)
unfolding marshal_enc_header marshal
marshal_enc_header-length recipient bs sized r =
    let e₀ = map-length 0 [] (omega arith) 2 (omega arith) in
    let e₁ = int-length 9 _ e₀ (pos 1) (omega arith) in
    let e₂ = int-length 18 _ e₁ algorithm_xhpke (omega arith) in
    let e₃ = int-length 27 _ e₂ (pos 4) (omega arith) in
    let e₄ = bytes-length 36 _ e₃ recipient.fingerprint (omega arith) in
    let written =
      ok-injective (rw (map_key_cmp-rank (pos 4) (pos 1) (omega arith) (omega arith)) at r) in
    subst (λ (b : Bytes). IsLength (length b)) written (omega (arith, e₄))
