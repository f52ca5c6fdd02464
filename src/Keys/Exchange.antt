-- ===== src/Keys/Exchange.antt =====
-- The texts and the CBOR forms of public keys (xdsa/xdsa.go) and their way back.
use darkbio_crypto_go.Base.{ℕ, ◌<◌, ◌^◌, ◌≡◌, ap, ◌∙◌, subst, true, ◌++◌, length, arith, ◌==◌}
use darkbio_crypto_go.Cbor.Types.{Bytes}
use darkbio_crypto_go.Cbor.Encoder.{Encoder, encode_bytes}
use darkbio_crypto_go.Cbor.Decoder.{Decoder, done, decode_bytes_fixed, advance}
use darkbio_crypto_go.Cbor.Cursor.{IsAt}
use darkbio_crypto_go.Cbor.Methods.{bytes_encoding}
use darkbio_crypto_go.Reflect.Trip.{decode_bytes_fixed-Reads, bytes_written}
use darkbio_crypto_go.Keys.Primitives.{Primitives, KeyResult, valid, ◌>>=◌}
use darkbio_crypto_go.Keys.Text.{decode_string, array_of_text, unmarshalled, unmarshal_fixed}
use darkbio_crypto_go.Keys.Laws.{PrimitiveLaws}
use darkbio_crypto_go.Keys.Parsing.{
  to_array_whole, parse_public_key-marshal_public, length-marshal_public,
}
use darkbio_crypto_go.Keys.Xdsa.{
  PublicKey, parse_secret_key, public_key, parse_public_key, marshal_public,
}
use darkbio_crypto_go.Keys.XdsaText.{
  marshal_text, unmarshal_text, marshal_cbor, unmarshal_cbor, signature_text, signature_of_text,
}

unmarshal_fixed-done :
    {A : Type 0} (n : ℕ) (parse : Bytes → KeyResult A) (b : Bytes) (d : Decoder) (rest : Bytes)
    → length b ≡ n
    → n < 2 ^ 63
    → IsAt d (bytes_encoding b ++ rest)
    → unmarshal_fixed n parse d ≡ unmarshalled (parse b) (advance d (length (bytes_encoding b)))
unfolding unmarshal_fixed
unmarshal_fixed-done n parse b d rest sized small at = rw (
  subst (λ (k : ℕ). decode_bytes_fixed k d ≡ done b (advance d (length (bytes_encoding b)))) sized
      (decode_bytes_fixed-Reads b (omega arith) d rest at),
  unmarshal_fixed,
)

module _ (p : Primitives) (laws : PrimitiveLaws p) where
  array_of_text-encode :
      (n : ℕ) (b : Bytes) → length b ≡ n → array_of_text p n (p.base64_encode b) ≡ valid b
  unfolding array_of_text decode_string
  array_of_text-encode n b sized =
      let (unbroken, decoded) = laws.base64_text b in
      rw (unbroken, decoded, ◌>>=◌, equal (length b) n sized, to_array_whole n b sized)
    where
      equal : (m k : ℕ) → m ≡ k → (m == k) ≡ true
      equal m k h = ground arith

  -- A signature of the right size is read back from its text.
  pub signature_of_text-signature_text :
      (sig : Bytes) → length sig ≡ 3373 → signature_of_text p (signature_text p sig) ≡ valid sig
  unfolding signature_of_text signature_text
  signature_of_text-signature_text sig sized = array_of_text-encode 3373 sig sized

  module _ (seed : Bytes) (sized : length seed ≡ 64) where
    -- If the libraries keep their laws, the public key of a seed of 64 bytes is read back from its
    -- text.
    pub unmarshal_text-marshal_text :
        unmarshal_text p (marshal_text p (public_key p (parse_secret_key p seed)))
        ≡ valid (public_key p (parse_secret_key p seed))
    unfolding unmarshal_text marshal_text
    unmarshal_text-marshal_text =
        rw
          (array_of_text-encode 1984 (marshal_public p (public_key p (parse_secret_key p seed)))
            (length-marshal_public p laws seed sized))
          (parse_public_key-marshal_public p laws seed sized)

    -- If the libraries keep their laws, UnmarshalCBOR reads the public key of a seed of 64 bytes
    -- that MarshalCBOR has appended, and stops behind it.
    pub unmarshal_cbor-marshal_cbor :
        (e : Encoder) (d : Decoder) (rest : Bytes)
        → IsAt d
            (bytes_encoding (marshal_public p (public_key p (parse_secret_key p seed))) ++ rest)
        → (marshal_cbor p (public_key p (parse_secret_key p seed)) e
            ≡ e ++ bytes_encoding (marshal_public p (public_key p (parse_secret_key p seed))))
          × (unmarshal_cbor p d
              ≡ unmarshalled (valid (public_key p (parse_secret_key p seed))) (
                  advance d (
                    length (
                      bytes_encoding (marshal_public p (public_key p (parse_secret_key p seed)))))))
    unfolding marshal_cbor encode_bytes unmarshal_cbor
    unmarshal_cbor-marshal_cbor e d rest at =
        let bytes = marshal_public p (public_key p (parse_secret_key p seed)) in
        let size = length-marshal_public p laws seed sized in
        (
          bytes_written 2 bytes e (omega arith) (omega (arith, size)),
          unmarshal_fixed-done 1984 (parse_public_key p) bytes d rest size (omega arith) at
              ∙ ap
                  (λ (r : KeyResult (PublicKey p)).
                    unmarshalled r (advance d (length (bytes_encoding bytes))))
                  (parse_public_key-marshal_public p laws seed sized),
        )
