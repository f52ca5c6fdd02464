-- ===== src/Keys/Text.antt =====
-- DecodeString of internal/base64ext/base64ext.go, and the base64 texts and CBOR byte strings of
-- arrays.
use darkbio_crypto_go.Base.{
  ℕ, none, some, Bool, false, ◌||◌, not, ◌==◌, [], ◌∷◌, length, if◌then◌else◌,
}
use darkbio_crypto_go.Cbor.Types.{Bytes}
use darkbio_crypto_go.Cbor.Decoder.{Decoder, done, fail, decode_bytes_fixed}
use darkbio_crypto_go.Keys.Primitives.{
  Primitives, KeyResult, cbor, valid, invalid, invalid_character, invalid_base64, invalid_length,
  ◌>>=◌, to_array,
}

-- strings.ContainsAny(s, "\r\n")
abbrev pub has_line_break : Bytes → Bool
has_line_break [] = false
has_line_break (c ∷ cs) = c == 13 || c == 10 || has_line_break cs

unfoldable pub decode_string : Primitives → Bytes → KeyResult Bytes
decode_string p s =
    if has_line_break s
    then invalid invalid_character
    else elim (p.base64_decode s) [ none ↦ invalid invalid_base64 | some b ↦ valid b ]

-- What all UnmarshalText methods start with: the bytes of the text, which have to be `n`, in an
-- array.
unfoldable pub array_of_text : Primitives → ℕ → Bytes → KeyResult Bytes
unfolding decode_string
array_of_text p n text = decode_string p text >>= λ raw.
    if not (length raw == n) then invalid invalid_length else valid (to_array n raw)

-- What a method with the Decoder returns, together with the Decoder as it leaves it.
pub data Unmarshalled (A : Type 0) : Type 0 where
  unmarshalled : KeyResult A → Decoder → Unmarshalled A

-- UnmarshalCBOR, with ParsePublicKey.
unfoldable pub unmarshal_fixed : {A : Type 0} → ℕ → (Bytes → KeyResult A) → Decoder → Unmarshalled A
unmarshal_fixed n parse d = elim (decode_bytes_fixed n d) [
  | done b d' ↦ unmarshalled (parse b) d'
  | fail e d' ↦ unmarshalled (invalid (cbor e)) d'
]
