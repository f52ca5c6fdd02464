-- ===== src/Cbor/Codec.antt =====
-- Encoder and Decoder (cbor/cbor.go) together: what one writes behind a buffer, the other reads.
use darkbio_crypto_go.Base.{
  ℕ, ◌+◌, ◌<◌, ◌≡◌, refl, sym, ap, ◌∙◌, ◌↔◌, ◌⊎◌, inl, inr, Bool, true, false, ◌++◌, [], ◌∷◌, arith,
  length, length-append, append_assoc, drop-append, subst, Bool-cases,
}
use darkbio_crypto_go.Base.Int.{ℤ, IsInt64}
use darkbio_crypto_go.Cbor.Types.{Bytes, IsLength, IsU64, ok, err, invalid_utf8}
use darkbio_crypto_go.Cbor.Layout.{header, encode_length-header}
use darkbio_crypto_go.Cbor.Header.{decode_header-Reads, decode_header_sound}
use darkbio_crypto_go.Cbor.Utf8
use darkbio_crypto_go.Cbor.Encoder.{
  Encoder, encode_length, encode_uint, encode_int, encode_bytes, encode_text, encode_bool,
  encode_null,
}
use darkbio_crypto_go.Cbor.Decoder.{
  Decoder, M, done, decode_header, decode_uint, decode_int, decode_bytes, decode_text, decode_bool,
  decode_null,
}
use darkbio_crypto_go.Cbor.Cursor.{IsAt, IsValid, Consumes, Reads}
use darkbio_crypto_go.Cbor.Methods.{
  int_encoding, bytes_encoding, text_encoding, null_encoding, encode_int_appends, decode_uint-Reads,
  decode_int-Reads, decode_bytes-Reads, decode_text-Reads, decode_bool-Reads, decode_null-Reads,
}

-- A decoder that has read `before` of the data.
abbrev pub behind : Bytes → Bytes → Decoder
behind before bytes = record { data_ = bytes; cursor = length before }

pub Reads-from {ℓ} :
    {A : Type ℓ} (p : M A) (a : A) (e buf enc rest : Bytes)
    → buf ≡ e ++ enc
    → Reads p enc a
    → p (behind e (buf ++ rest)) ≡ done a (behind buf (buf ++ rest))
Reads-from p a e buf enc rest same reads =
    reads (behind e (buf ++ rest)) rest at
    ∙ ap (λ (n : ℕ). done a (record { data_ = buf ++ rest; cursor = n })) len
  where
    at : IsAt (behind e (buf ++ rest)) (enc ++ rest)
    at =
        rw (same, append_assoc)
          (record {
            fits = omega (arith, length-append e (enc ++ rest));
            here = drop-append e (enc ++ rest);
          })

    len : length e + length enc ≡ length buf
    len = rw same (sym (length-append e enc))

-- A header is accepted exactly where its one canonical encoding stands.
pub decode_header_iff :
    (d d' : Decoder) (m v : ℕ)
    → IsValid d
    → (decode_header d ≡ done (m, v) d')
      ↔ ((m < 8) × IsU64 v × Consumes d (encode_length m v []) d')
decode_header_iff d d' m v valid = (accepted, complete)
  where
    accepted :
        decode_header d ≡ done (m, v) d' → (m < 8) × IsU64 v × Consumes d (encode_length m v []) d'
    accepted h =
        let (enc, (hm, hv, e), c) = decode_header_sound d d' (m, v) valid h in
        (
          hm,
          hv,
          subst (λ (xs : Bytes). Consumes d xs d') (e ∙ sym (encode_length-header m v [] hm hv)) c,
        )

    complete :
        ((m < 8) × IsU64 v × Consumes d (encode_length m v []) d')
        → decode_header d ≡ done (m, v) d'
    complete (hm, hv, c) =
        let here = subst (λ (xs : Bytes). Consumes d xs d') (encode_length-header m v [] hm hv) c in
        decode_header-Reads m v hm hv d here.rest here.before ∙ ap (done (m, v)) (sym here.moved)

-- What EncodeUint appends for a uint64, DecodeUint reads back, and it stops behind it.
pub decode_uint-encode_uint :
    (v : ℕ) (e : Encoder) (rest : Bytes)
    → IsU64 v
    → let buf = encode_uint v e in
      decode_uint (behind e (buf ++ rest)) ≡ done v (behind buf (buf ++ rest))
unfolding encode_uint
decode_uint-encode_uint v e rest h =
    Reads-from decode_uint v e _ (header 0 v) rest (encode_length-header 0 v e (omega arith) h)
      (decode_uint-Reads v h)

-- What EncodeInt appends for an int64 of either sign, DecodeInt reads back.
pub decode_int-encode_int :
    (k : ℤ) (e : Encoder) (rest : Bytes)
    → IsInt64 k
    → let buf = encode_int k e in
      decode_int (behind e (buf ++ rest)) ≡ done k (behind buf (buf ++ rest))
decode_int-encode_int k e rest h =
    Reads-from decode_int k e _ (int_encoding k) rest (encode_int_appends k e h)
      (decode_int-Reads k h)

-- What EncodeBytes appends, DecodeBytes reads back.
pub decode_bytes-encode_bytes :
    (b : Bytes) (e : Encoder) (rest : Bytes)
    → IsLength (length b)
    → let buf = encode_bytes b e in
      decode_bytes (behind e (buf ++ rest)) ≡ done b (behind buf (buf ++ rest))
unfolding encode_bytes
decode_bytes-encode_bytes b e rest h =
    Reads-from decode_bytes b e _ (bytes_encoding b) rest
      (rw (encode_length-header 2 (length b) e (omega arith) (omega arith)) (append_assoc e _ b))
      (decode_bytes-Reads b h)

-- EncodeText either refuses a text that is not valid UTF-8, or appends what DecodeText reads back.
pub decode_text-encode_text :
    (t : Bytes) (e : Encoder) (rest : Bytes)
    → IsLength (length t)
    → (encode_text t e ≡ err invalid_utf8) × (Utf8.valid t ≡ false)
      ⊎ ((buf : Bytes) × (encode_text t e ≡ ok buf)
          × (Utf8.valid t ≡ true)
          × (decode_text (behind e (buf ++ rest)) ≡ done t (behind buf (buf ++ rest))))
unfolding encode_text
decode_text-encode_text t e rest h = elim (Bool-cases (Utf8.valid t)) [
  | inl good ↦ inr (
    encode_length 3 (length t) e ++ t,
    rw good,
    good,
    Reads-from decode_text t e _ (text_encoding t) rest
        (rw (encode_length-header 3 (length t) e (omega arith) (omega arith)) (append_assoc e _ t))
        (decode_text-Reads t h good),
  )
  | inr bad ↦ inl (rw bad, bad)
]

-- The simple values.
pub decode_bool-encode_bool :
    (b : Bool) (e : Encoder) (rest : Bytes)
    → let buf = encode_bool b e in
      decode_bool (behind e (buf ++ rest)) ≡ done b (behind buf (buf ++ rest))
unfolding encode_bool
decode_bool-encode_bool true e rest =
    Reads-from decode_bool true e _ (0xf5 ∷ []) rest refl (decode_bool-Reads true)
decode_bool-encode_bool false e rest =
    Reads-from decode_bool false e _ (0xf4 ∷ []) rest refl (decode_bool-Reads false)

pub decode_null-encode_null :
    (e : Encoder) (rest : Bytes)
    → let buf = encode_null e in
      decode_null (behind e (buf ++ rest)) ≡ done tt (behind buf (buf ++ rest))
unfolding encode_null
decode_null-encode_null e rest =
    Reads-from decode_null tt e _ null_encoding rest refl decode_null-Reads
