-- ===== src/Pem/Codec.antt =====
-- Decode and Encode of pem/pem.go, over the base64 of encoding/base64.
use darkbio_crypto_go.Base.{
  ℕ, zero, suc, ◌+◌, ◌-◌, Option, none, some, ◌&&◌, not, ◌==◌, ltb, if◌then◌else◌, [], ◌∷◌, ◌++◌,
  length, take, drop, get_elem?,
}
use darkbio_crypto_go.Cbor.Types.{Bytes}
use darkbio_crypto_go.Keys.Text.{has_line_break}
use darkbio_crypto_go.Pem.Scan.{has_prefix, has_suffix, equal, index, remove_all, slice}

abbrev pub pem_header : Bytes
pem_header = b'-' ∷ b'-' ∷ b'-' ∷ b'-' ∷ b'-' ∷ b'B' ∷ b'E' ∷ b'G' ∷ b'I' ∷ b'N' ∷ b' ' ∷ []

abbrev pub pem_footer : Bytes
pem_footer = b'-' ∷ b'-' ∷ b'-' ∷ b'-' ∷ b'-' ∷ b'E' ∷ b'N' ∷ b'D' ∷ b' ' ∷ []

abbrev pub pem_ending : Bytes
pem_ending = b'-' ∷ b'-' ∷ b'-' ∷ b'-' ∷ b'-' ∷ []

-- The errors of Decode, without their texts.
pub data PemError : Type 0 where
  missing_header incomplete_header malformed_header empty_block_type missing_footer : PemError
  trailing_data empty_body unterminated_body invalid_character invalid_encoding : PemError

-- The block type and the blob of Decode, its error, or a panic.
pub data Decoded : Type 0 where
  block : Bytes → Bytes → Decoded
  refused : PemError → Decoded
  panicked : Decoded

-- EncodeToString of base64.StdEncoding, and DecodeString of its strict form.
pub record Base64 : Type 0 where
  pub encode_to_string : Bytes → Bytes
  pub decode_string : Bytes → Option Bytes

-- The line ending behind the header, whose "\n" is at `header_end`; the index is in range.
unfoldable pub line_ending_at : Bytes → ℕ → Bytes
line_ending_at input header_end = elim (get_elem? input (header_end - 1)) [
  | none ↦ 10 ∷ []
  | some c ↦ if ltb 0 header_end && c == 13 then 13 ∷ 10 ∷ [] else 10 ∷ []
]

unfoldable pub footer_of : Bytes → Bytes
footer_of block_type = pem_footer ++ block_type ++ pem_ending

module _ (p : Base64) where
  -- Decode from the test of the body on.
  unfoldable pub decode_body : Bytes → Bytes → Bytes → Decoded
  decode_body line_ending block_type body =
      if length body == 0
      then refused empty_body
      else if not (has_suffix body line_ending)
      then refused unterminated_body
      else let b64 = remove_all (take (length body - length line_ending) body) line_ending in
        if has_line_break b64 then refused invalid_character else elim (p.decode_string b64) [
          | none ↦ refused invalid_encoding
          | some decoded ↦ block block_type decoded
        ]

  -- Decode behind the line of the header, from the search for the footer on.
  unfoldable pub decode_rest : Bytes → Bytes → Bytes → Decoded
  unfolding footer_of decode_body
  decode_rest line_ending block_type input =
      let footer = footer_of block_type in
      elim (index input footer) [
        | none ↦ refused missing_footer
        | some start ↦
            let rest = drop (start + length footer) input in
            if ltb 0 (length rest) && not (equal rest line_ending)
            then refused trailing_data
            else decode_body line_ending block_type (take start input)
      ]

  -- Decode of the header, without its line ending, and of what is behind it.
  unfoldable pub decode_block_type : Bytes → Bytes → Bytes → Decoded
  unfolding decode_rest
  decode_block_type line_ending header input =
      if not (has_prefix header pem_header && has_suffix header pem_ending)
      then refused malformed_header
      else elim (slice (length pem_header) (length header - length pem_ending) header) [
        | none ↦ panicked
        | some block_type ↦
            if length block_type == 0
            then refused empty_block_type
            else decode_rest line_ending block_type input
      ]

  -- Decode from the line ending of the header on, which is at `header_end`.
  unfoldable pub decode_at : Bytes → ℕ → Decoded
  unfolding line_ending_at decode_block_type
  decode_at input header_end =
      let line_ending = line_ending_at input header_end in
      let header = take header_end input in
      let header = if length line_ending == 2 then take (length header - 1) header else header in
      decode_block_type line_ending header (drop (suc header_end) input)

  unfoldable pub decode : Bytes → Decoded
  unfolding decode_at
  decode input =
      if not (has_prefix input pem_header)
      then refused missing_header
      else elim (index input (10 ∷ [])) [
        | none ↦ refused incomplete_header
        | some header_end ↦ decode_at input header_end
      ]

-- The loop of Encode; `n` bounds the lines that are left.
unfoldable pub write_lines : ℕ → Bytes → Bytes
write_lines zero b64 = []
write_lines (suc n) [] = []
write_lines (suc n) (c ∷ cs) =
    let line = take 64 (c ∷ cs) in line ++ 10 ∷ write_lines n (drop (length line) (c ∷ cs))

unfoldable pub encode : Base64 → Bytes → Bytes → Bytes
unfolding write_lines footer_of
encode p kind blob =
    let b64 = p.encode_to_string blob in
    pem_header
    ++ kind
    ++ pem_ending
    ++ 10 ∷ (write_lines (length b64) b64 ++ (footer_of kind ++ 10 ∷ []))
