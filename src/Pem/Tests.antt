-- ===== src/Pem/Tests.antt =====
-- A toy base64, and the theorems on pem/pem.go at concrete inputs.
use darkbio_crypto_go.Base.{
  ℕ, ◌+◌, ◌-◌, ◌<◌, ◌≡◌, ap₂, refl, some, true, false, [], ◌∷◌, ◌++◌, length, arith,
}
use darkbio_crypto_go.Cbor.Types.{Bytes}
use darkbio_crypto_go.Keys.Text.{has_line_break}
use darkbio_crypto_go.Pem.Scan.{avoids}
use darkbio_crypto_go.Pem.Codec.{
  Base64, decode, encode, block, refused, invalid_character, pem_header, pem_ending, trailing_data,
  malformed_header, footer_of,
}
use darkbio_crypto_go.Pem.RoundTrip.{Base64Laws, decode-encode}

-- base64 with the numbers from 100 on as its letters.
abbrev spell : Bytes → Bytes
spell [] = []
spell (b ∷ bs) = (b + 100) ∷ spell bs

abbrev unspell : Bytes → Bytes
unspell [] = []
unspell (c ∷ cs) = (c - 100) ∷ unspell cs

unspell-spell : (b : Bytes) → unspell (spell b) ≡ b
unspell-spell [] = refl
unspell-spell (b ∷ bs) = ap₂ (λ (x : ℕ) (xs : Bytes). x ∷ xs) (omega arith) (unspell-spell bs)

spell-unbroken : (b : Bytes) → has_line_break (spell b) ≡ false
spell-unbroken [] = refl
spell-unbroken (b ∷ bs) = ground (arith, spell-unbroken bs)

spell-avoids : (b : Bytes) → avoids 45 (spell b) ≡ true
spell-avoids [] = refl
spell-avoids (b ∷ bs) = ground (arith, spell-avoids bs)

spell-nonempty : (b : Bytes) → 0 < length b → 0 < length (spell b)
spell-nonempty [] h = h
spell-nonempty (b ∷ bs) h = omega arith

abbrev toy : Base64
toy = record { encode_to_string = spell; decode_string = λ s. some (unspell s) }

toy_laws : Base64Laws toy
toy_laws = record {
  encode_nil = refl;
  encode_nonempty = spell-nonempty;
  encode_text = λ b. (spell-unbroken b, spell-avoids b);
  decode_encode = λ b. ap-some b;
}
  where
    ap-some : (b : Bytes) → some (unspell (spell b)) ≡ some b
    ap-some b = rw (unspell-spell b)

-- The type "KEY", and a blob of 66 bytes, which takes two lines.
abbrev key_type : Bytes
key_type = b'K' ∷ b'E' ∷ b'Y' ∷ []

abbrev eleven : Bytes
eleven = 0 ∷ 1 ∷ 2 ∷ 3 ∷ 4 ∷ 5 ∷ 6 ∷ 7 ∷ 8 ∷ 9 ∷ 10 ∷ []

abbrev long_blob : Bytes
long_blob = eleven ++ eleven ++ eleven ++ eleven ++ eleven ++ eleven

decode-encode_example : decode toy (encode toy key_type long_blob) ≡ block key_type long_blob
decode-encode_example = decode-encode toy toy_laws key_type long_blob (omega arith) refl

abbrev header_line : Bytes
header_line = pem_header ++ key_type ++ pem_ending

-- "\r\n" is accepted if it is used throughout.
decode-crlf :
    decode toy (
      header_line ++ 13 ∷ 10 ∷ 107 ∷ 13 ∷ 10 ∷ 108 ∷ 13 ∷ 10 ∷ (footer_of key_type ++ 13 ∷ 10 ∷ []))
    ≡ block key_type (7 ∷ 8 ∷ [])
unfolding decode
decode-crlf = refl

decode-mixed :
    decode toy (header_line ++ 13 ∷ 10 ∷ 107 ∷ 10 ∷ 108 ∷ 13 ∷ 10 ∷ footer_of key_type)
    ≡ refused invalid_character
unfolding decode
decode-mixed = refl

decode-trailing :
    decode toy (header_line ++ 10 ∷ 107 ∷ 10 ∷ (footer_of key_type ++ 13 ∷ 10 ∷ []))
    ≡ refused trailing_data
unfolding decode
decode-trailing = refl

decode-short_dashes : decode toy (pem_header ++ b'-' ∷ 10 ∷ []) ≡ refused malformed_header
unfolding decode
decode-short_dashes = refl
