-- ===== src/Pem/RoundTrip.antt =====
-- Decode of what Encode writes (pem/pem.go), on top of the documented behaviour of base64.
use darkbio_crypto_go.Base.{
  ℕ, zero, suc, ◌+◌, ◌-◌, ◌≤◌, ◌<◌, ◌≡◌, ltb, le→leb, refl, sym, ap, ap₂, subst, ◌⊎◌, inl, inr,
  none, get_elem?, ◌&&◌, ◌∙◌, arith, some, true, false, ◌==◌, if◌then◌else◌, [], ◌∷◌, ◌++◌,
  append_assoc, length, take, drop, length-append, take-append, drop-append, length-drop,
  take-append-drop, drop-drop,
}
use darkbio_crypto_go.Cbor.Types.{Bytes}
use darkbio_crypto_go.Keys.Text.{has_line_break}
use darkbio_crypto_go.Pem.Scan.{has_prefix, remove_all, slice, avoids}
use darkbio_crypto_go.Pem.Codec.{
  Base64, block, refused, empty_body, invalid_encoding, decode_at, pem_header, pem_footer,
  pem_ending, footer_of, line_ending_at, decode_body, decode_rest, decode_block_type, decode,
  write_lines, encode,
}
use darkbio_crypto_go.Pem.Finding.{
  avoids-append, avoids-split, drop-length-take, index-append, has_suffix-append, get_elem?-append,
  drop-append_cons, remove_all-append, remove_all-trailing,
}

-- The text has no line breaks and no dashes, and is empty for no bytes only.
pub record Base64Laws (p : Base64) : Type 0 where
  pub encode_nil : p.encode_to_string [] ≡ []
  pub encode_nonempty : (b : Bytes) → 0 < length b → 0 < length (p.encode_to_string b)
  pub encode_text :
      (b : Bytes)
      → (has_line_break (p.encode_to_string b) ≡ false) × (avoids 45 (p.encode_to_string b) ≡ true)
  pub decode_encode : (b : Bytes) → p.decode_string (p.encode_to_string b) ≡ some b

header_of : Bytes → Bytes
header_of kind = (pem_header ++ kind) ++ pem_ending

module _ (p : Base64) (kind : Bytes) (named : 0 < length kind) where
  decode_rest-footer :
      (body : Bytes)
      → avoids 45 body ≡ true
      → decode_rest p (10 ∷ []) kind (body ++ (footer_of kind ++ 10 ∷ []))
        ≡ decode_body p (10 ∷ []) kind body
  unfolding decode_rest footer_of
  decode_rest-footer body clean =
      let footer = (pem_footer ++ kind) ++ pem_ending in
      let found =
        index-append 45 ((drop 1 pem_footer ++ kind) ++ pem_ending) body (10 ∷ []) clean in
      let behind : drop (length body + length footer) (body ++ (footer ++ 10 ∷ [])) ≡ 10 ∷ [] =
        sym (drop-drop (length body) (length footer) (body ++ (footer ++ 10 ∷ [])))
        ∙ ap (λ (l : Bytes). drop (length footer) l) (drop-append body (footer ++ 10 ∷ []))
        ∙ drop-append footer (10 ∷ []) in
      rw (found, decode_rest, behind, take-append body (footer ++ 10 ∷ []))

  decode_block_type-header :
      (input : Bytes)
      → decode_block_type p (10 ∷ []) (header_of kind) input ≡ decode_rest p (10 ∷ []) kind input
  unfolding decode_block_type header_of
  decode_block_type-header input =
      let start = pem_header ++ kind in
      let size : length (start ++ pem_ending) - length pem_ending ≡ length start =
        omega (arith, length-append start pem_ending) in
      let bounds : slice (length pem_header) (length start) (start ++ pem_ending) ≡ some kind = rw (
        le→leb (length pem_header) (length start) (omega arith),
        le→leb (length start) (length (start ++ pem_ending))
            (omega (arith, length-append start pem_ending)),
        take-append kind pem_ending,
      ) in
      let some_kind : length kind == 0 ≡ false = ground arith in
      rw (decode_block_type, has_suffix-append start pem_ending, size, bounds, some_kind)

  line_ending_at-header :
      (input : Bytes) → line_ending_at (header_of kind ++ input) (length (header_of kind)) ≡ 10 ∷ []
  unfolding line_ending_at header_of
  line_ending_at-header input =
      let start = pem_header ++ kind in
      let size : length (start ++ pem_ending) - 1 ≡ length start + 4 =
        omega (arith, length-append start pem_ending) in
      let dash : get_elem? (start ++ pem_ending ++ input) (length (start ++ pem_ending) - 1)
          ≡ some 45 =
        ap₂ (λ (l : Bytes) (n : ℕ). get_elem? l n) (append_assoc start pem_ending input) size
        ∙ get_elem?-append start (pem_ending ++ input) 4 in
      let other : (ltb 0 (length (start ++ pem_ending)) && 45 == 13) ≡ false = ground arith in
      rw (line_ending_at, dash, other)

  decode-line :
      (h input : Bytes)
      → has_prefix (h ++ 10 ∷ input) pem_header ≡ true
      → avoids 10 h ≡ true
      → line_ending_at (h ++ 10 ∷ input) (length h) ≡ 10 ∷ []
      → decode p (h ++ 10 ∷ input) ≡ decode_block_type p (10 ∷ []) h input
  unfolding decode decode_at
  decode-line h input start one_line ending =
      let whole = h ++ 10 ∷ input in
      let header = take (length h) whole in
      let found = index-append 10 [] h input one_line in
      rw (start, decode, found)
        (ap
            (λ (e : Bytes).
              decode_block_type p e
                (if length e == 2 then take (length header - 1) header else header)
                (drop (suc (length h)) whole))
            ending
          ∙ ap₂ (λ (x y : Bytes). decode_block_type p (10 ∷ []) x y) (take-append h (10 ∷ input))
              (drop-append_cons h input 10))

  decode-frame :
      (body : Bytes)
      → avoids 10 kind ≡ true
      → avoids 45 body ≡ true
      → decode p (header_of kind ++ 10 ∷ (body ++ (footer_of kind ++ 10 ∷ [])))
        ≡ decode_body p (10 ∷ []) kind body
  unfolding header_of
  decode-frame body one_line clean =
      let rest = body ++ (footer_of kind ++ 10 ∷ []) in
      decode-line (header_of kind) rest refl
        (avoids-append 10 (pem_header ++ kind) pem_ending
          (avoids-append 10 pem_header kind refl one_line) refl)
        (line_ending_at-header (10 ∷ rest))
      ∙ decode_block_type-header rest
      ∙ decode_rest-footer body clean

-- The lines of a text have the text without their line breaks.
write_lines-remove_all :
    (n : ℕ) (b64 : Bytes)
    → length b64 ≤ n
    → avoids 10 b64 ≡ true
    → remove_all (write_lines n b64) (10 ∷ []) ≡ b64
unfolding write_lines
write_lines-remove_all zero [] h k = refl
write_lines-remove_all zero (c ∷ cs) h k = absurd (omega arith)
write_lines-remove_all (suc n) [] h k = refl
write_lines-remove_all (suc n) (c ∷ cs) h k =
    let b64 = c ∷ cs in
    let line = take 64 b64 in
    let rest = drop (length line) b64 in
    let parts : line ++ rest ≡ b64 =
      ap (λ (l : Bytes). line ++ l) (drop-length-take 64 b64) ∙ take-append-drop 64 b64 in
    let (clean, clean_rest) =
      avoids-split 10 line rest (subst (λ (l : Bytes). avoids 10 l ≡ true) (sym parts) k) in
    let shorter : length rest ≤ n = omega (arith, length-drop (length line) b64) in
    remove_all-append line (write_lines n rest) clean
    ∙ ap (λ (l : Bytes). line ++ l) (write_lines-remove_all n rest shorter clean_rest)
    ∙ parts

write_lines-ending :
    (n : ℕ) (b64 : Bytes)
    → (write_lines n b64 ≡ []) ⊎ ((body : Bytes) × (write_lines n b64 ≡ body ++ 10 ∷ []))
unfolding write_lines
write_lines-ending zero b64 = inl refl
write_lines-ending (suc n) [] = inl refl
write_lines-ending (suc n) (c ∷ cs) =
    let line = take 64 (c ∷ cs) in
    elim (write_lines-ending n (drop (length line) (c ∷ cs))) [
      | inl last ↦ inr (line, ap (λ (l : Bytes). line ++ 10 ∷ l) last)
      | inr (body, more) ↦ inr (
        line ++ 10 ∷ body,
        ap (λ (l : Bytes). line ++ 10 ∷ l) more ∙ sym (append_assoc line (10 ∷ body) (10 ∷ [])),
      )
    ]

decode_body-lines :
    (p : Base64) (kind body text : Bytes)
    → remove_all (body ++ 10 ∷ []) (10 ∷ []) ≡ text
    → has_line_break text ≡ false
    → decode_body p (10 ∷ []) kind (body ++ 10 ∷ []) ≡ elim (p.decode_string text) [
      | none ↦ refused invalid_encoding
      | some decoded ↦ block kind decoded
    ]
unfolding decode_body
decode_body-lines p kind body text read unbroken =
    let size : length (body ++ 10 ∷ []) - 1 ≡ length body =
      omega (arith, length-append body (10 ∷ [])) in
    let nonempty : length (body ++ 10 ∷ []) == 0 ≡ false =
      ground (arith, length-append body (10 ∷ [])) in
    let joined = sym (remove_all-trailing body) ∙ read in
    rw (
      nonempty,
      decode_body,
      has_suffix-append body (10 ∷ []),
      size,
      take-append body (10 ∷ []),
      joined,
      unbroken,
    )

write_lines-clean :
    (n : ℕ) (b64 : Bytes) → avoids 45 b64 ≡ true → avoids 45 (write_lines n b64) ≡ true
unfolding write_lines
write_lines-clean zero b64 h = refl
write_lines-clean (suc n) [] h = refl
write_lines-clean (suc n) (c ∷ cs) h =
    let line = take 64 (c ∷ cs) in
    let parts : line ++ drop (length line) (c ∷ cs) ≡ c ∷ cs =
      ap (λ (l : Bytes). line ++ l) (drop-length-take 64 (c ∷ cs)) ∙ take-append-drop 64 (c ∷ cs) in
    let (clean, clean_rest) =
      avoids-split 45 line _ (subst (λ (l : Bytes). avoids 45 l ≡ true) (sym parts) h) in
    avoids-append 45 line _ clean (write_lines-clean n (drop (length line) (c ∷ cs)) clean_rest)

unbroken-avoids : (s : Bytes) → has_line_break s ≡ false → avoids 10 s ≡ true
unbroken-avoids [] h = refl
unbroken-avoids (c ∷ cs) h =
    let (other, later) : (c == 10 ≡ false) × (has_line_break cs ≡ false) = ground arith in
    rw (other, unbroken-avoids cs later)

module _ (p : Base64) (laws : Base64Laws p) (kind : Bytes) where
  decode_body-write_lines :
      (blob : Bytes)
      → 0 < length blob
      → decode_body p
          (10 ∷ [])
          kind
          (write_lines (length (p.encode_to_string blob)) (p.encode_to_string blob))
        ≡ block kind blob
  decode_body-write_lines blob some_blob =
      let text = p.encode_to_string blob in
      let (unbroken, _) = laws.encode_text blob in
      let read =
        write_lines-remove_all (length text) text (omega arith) (unbroken-avoids text unbroken) in
      elim (write_lines-ending (length text) text) [
        | inl nothing ↦ absurd (
            let e : [] ≡ text = sym (ap (λ (l : Bytes). remove_all l (10 ∷ [])) nothing) ∙ read in
            let size : 0 < length text = laws.encode_nonempty blob some_blob in
            omega (arith, size, ap (λ (l : Bytes). length l) e))
        | inr (body, ending) ↦
            ap (λ (l : Bytes). decode_body p (10 ∷ []) kind l) ending
            ∙ decode_body-lines p kind body text
                (ap (λ (l : Bytes). remove_all l (10 ∷ [])) (sym ending) ∙ read) unbroken
            ∙ rw (laws.decode_encode blob)
      ]

  decode_body-encoded :
      (blob : Bytes)
      → decode_body p
          (10 ∷ [])
          kind
          (write_lines (length (p.encode_to_string blob)) (p.encode_to_string blob))
        ≡ (if length blob == 0 then refused empty_body else block kind blob)
  unfolding decode_body write_lines
  decode_body-encoded [] = rw laws.encode_nil
  decode_body-encoded (b ∷ bs) =
      let nonempty : length (b ∷ bs) == 0 ≡ false = ground arith in
      decode_body-write_lines (b ∷ bs) (omega arith) ∙ rw nonempty

  -- If base64 keeps its laws, then what Encode writes for a nonempty kind without a line feed is
  -- decoded to the kind and the blob if the blob is nonempty, and is refused for its empty body if
  -- the blob is empty.
  pub decode-encode :
      (blob : Bytes)
      → 0 < length kind
      → avoids 10 kind ≡ true
      → decode p (encode p kind blob)
        ≡ (if length blob == 0 then refused empty_body else block kind blob)
  unfolding encode header_of
  decode-encode blob named one_line =
      let text = p.encode_to_string blob in
      let (_, clean) = laws.encode_text blob in
      let frame =
        decode-frame p kind named (write_lines (length text) text) one_line
          (write_lines-clean (length text) text clean) in
      frame ∙ decode_body-encoded blob
