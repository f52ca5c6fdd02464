-- ===== src/Keys/Tests.antt =====
-- Toy primitives, and the theorems on keys at concrete inputs.
use darkbio_crypto_go.Base.{
  ℕ, ◌+◌, ◌-◌, ◌≡◌, ◌↔◌, refl, ap, ap₂, some, true, false, [], ◌∷◌, ◌++◌, length, arith,
}
use darkbio_crypto_go.Cbor.Types.{Bytes}
use darkbio_crypto_go.Cbor.Decoder.{new_decoder, advance}
use darkbio_crypto_go.Cbor.Methods.{bytes_encoding}
use darkbio_crypto_go.Reflect.Types.{zeros}
use darkbio_crypto_go.Reflect.Typed.{length-zeros}
use darkbio_crypto_go.Keys.Primitives.{Primitives, valid}
use darkbio_crypto_go.Keys.Text.{has_line_break, unmarshalled}
use darkbio_crypto_go.Keys.Laws.{PrimitiveLaws}
use darkbio_crypto_go.Keys.Mldsa
use darkbio_crypto_go.Keys.Eddsa
use darkbio_crypto_go.Keys.Xdsa.{
  PublicKey, parse_secret_key, public_key, parse_public_key, marshal_public, sign, verify,
  message_prime, signature_domain, compose_signature,
}
use darkbio_crypto_go.Keys.XdsaText.{marshal_text, unmarshal_text, marshal_cbor, unmarshal_cbor}
use darkbio_crypto_go.Keys.Parsing.{marshal_public-parse_public_key}
use darkbio_crypto_go.Keys.Signing.{verify-compose_signature, verify-sign}
use darkbio_crypto_go.Keys.Exchange.{unmarshal_text-marshal_text, unmarshal_cbor-marshal_cbor}

-- base64 with the numbers from 100 on as its letters.
abbrev spell : Bytes → Bytes
spell [] = []
spell (b ∷ bs) = (b + 100) ∷ spell bs

abbrev unspell : Bytes → Bytes
unspell [] = []
unspell (c ∷ cs) = (c - 100) ∷ unspell cs

unspell-spell : (b : Bytes) → unspell (spell b) ≡ b
unspell-spell [] = refl
unspell-spell (b ∷ bs) = ap₂ (λ (x : ℕ) (xs : Bytes). x ∷ xs) (omega arith) (unspell-spell bs)

spell-unbroken : (b : Bytes) → has_line_break (spell b) ≡ false
spell-unbroken [] = refl
spell-unbroken (b ∷ bs) = ground (arith, spell-unbroken bs)

-- A private key is its seed, public keys and signatures are zeros, and every signature verifies.
abbrev toy : Primitives
toy = record {
  MlPrivate = Bytes;
  MlPublic = Bytes;
  EdPrivate = Bytes;
  ml_new_key_from_seed = λ seed. seed;
  ml_public = λ k. zeros 1952;
  ml_sign_to = λ k m ctx. zeros 3309;
  ml_verify = λ k m ctx sig. true;
  ml_marshal_binary = λ k. k;
  ml_unmarshal_binary = λ b. some b;
  ed_new_key_from_seed = λ seed. seed;
  ed_seed = λ k. k;
  ed_public = λ k. k;
  ed_sign = λ k m. zeros 64;
  ed_verify = λ k m sig. true;
  ed_is_point = λ b. true;
  sha256 = λ b. zeros 32;
  sha512 = λ b. zeros 64;
  base64_encode = spell;
  base64_decode = λ s. some (unspell s);
}

toy_laws : PrimitiveLaws toy
toy_laws = record {
  ml_signs = λ seed m ctx h c. (length-zeros 3309, refl);
  ed_signs = λ seed m h. (length-zeros 64, refl);
  ml_unmarshals = λ b h. (b, refl, refl);
  ml_marshals = λ seed h. (length-zeros 1952, refl);
  ed_seed_of = λ seed h. refl;
  ed_point = λ seed h. (h, refl);
  sha256_size = λ b. length-zeros 32;
  base64_text = λ b. (spell-unbroken b, ap some (unspell-spell b));
}

abbrev toy_seed : Bytes
toy_seed = zeros 32 ++ (7 ∷ zeros 31)

verify-sign_example :
    (sig : Bytes) × (sign toy (parse_secret_key toy toy_seed) (1 ∷ []) ≡ valid sig)
    × (length sig ≡ 3373)
    × (verify toy (public_key toy (parse_secret_key toy toy_seed)) (1 ∷ []) sig ≡ true)
verify-sign_example = verify-sign toy toy_laws toy_seed (1 ∷ []) refl

abbrev toy_public : PublicKey toy
toy_public = record { ml_key = record { key = zeros 1952 }; ed_key = record { key = 7 ∷ zeros 31 } }

verify-compose_signature_example :
    verify toy toy_public (1 ∷ []) (compose_signature toy (zeros 3309) (zeros 64)) ≡ true
    ↔ (Mldsa.verify toy toy_public.ml_key (message_prime toy (1 ∷ [])) signature_domain (zeros 3309)
        ≡ true)
      × (Eddsa.verify toy toy_public.ed_key (message_prime toy (1 ∷ [])) (zeros 64) ≡ true)
verify-compose_signature_example =
    verify-compose_signature toy toy_public (1 ∷ []) (zeros 3309) (zeros 64) (length-zeros 3309)

unmarshal_text-marshal_text_example :
    unmarshal_text toy (marshal_text toy (public_key toy (parse_secret_key toy toy_seed)))
    ≡ valid (public_key toy (parse_secret_key toy toy_seed))
unmarshal_text-marshal_text_example = unmarshal_text-marshal_text toy toy_laws toy_seed refl

abbrev toy_public_bytes : Bytes
toy_public_bytes = zeros 1952 ++ (7 ∷ zeros 31)

parse_public_key-toy : parse_public_key toy toy_public_bytes ≡ valid toy_public
unfolding parse_public_key Mldsa.parse_public_key Eddsa.parse_public_key
parse_public_key-toy = refl

marshal_public-parse_public_key_example : marshal_public toy toy_public ≡ toy_public_bytes
marshal_public-parse_public_key_example =
    marshal_public-parse_public_key toy toy_laws toy_public_bytes toy_public refl
      parse_public_key-toy

abbrev toy_cbor : Bytes
toy_cbor = bytes_encoding (marshal_public toy (public_key toy (parse_secret_key toy toy_seed)))

unmarshal_cbor-marshal_cbor_example :
    (marshal_cbor toy (public_key toy (parse_secret_key toy toy_seed)) [] ≡ toy_cbor)
    × (unmarshal_cbor toy (new_decoder (toy_cbor ++ []))
        ≡ unmarshalled
            (valid (public_key toy (parse_secret_key toy toy_seed)))
            (advance (new_decoder (toy_cbor ++ [])) (length toy_cbor)))
unmarshal_cbor-marshal_cbor_example =
    unmarshal_cbor-marshal_cbor toy toy_laws toy_seed refl [] (new_decoder (toy_cbor ++ [])) []
      (record { fits = omega arith; here = refl })
