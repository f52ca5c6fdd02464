-- ===== src/Keys/Parsing.antt =====
-- The keys of xdsa/xdsa.go and the bytes they are marshalled to.
use darkbio_crypto_go.Base.{
  ℕ, ◌+◌, ◌≡◌, refl, ap, ap₂, ◌∙◌, subst, ◌++◌, length, take, drop, arith, take-append, drop-append,
  take-append-drop, length-drop, length-take_le, length-append, inl, inr, Bool-cases,
}
use darkbio_crypto_go.Cbor.Types.{Bytes}
use darkbio_crypto_go.Reflect.Types.{zeros}
use darkbio_crypto_go.Keys.Primitives.{Primitives, valid, ◌>>=◌, to_array}
use darkbio_crypto_go.Keys.Laws.{PrimitiveLaws}
use darkbio_crypto_go.Keys.Mldsa
use darkbio_crypto_go.Keys.Eddsa
use darkbio_crypto_go.Keys.Xdsa.{
  PublicKey, parse_secret_key, marshal_secret, public_key, parse_public_key, marshal_public,
}

-- A slice of the size of the array is copied as it is.
pub to_array_whole : (n : ℕ) (b : Bytes) → length b ≡ n → to_array n b ≡ b
to_array_whole n b h = subst (λ (k : ℕ). take k (b ++ zeros n) ≡ b) h (take-append b (zeros n))

pub length-take_at :
    (m n : ℕ) (b : Bytes) → length b ≡ m + n → (length (take m b) ≡ m) × (length (drop m b) ≡ n)
length-take_at m n b h = (length-take_le m b (omega arith), omega (arith, length-drop m b))

pub take_at : (n : ℕ) (xs ys : Bytes) → length xs ≡ n → take n (xs ++ ys) ≡ xs
take_at n xs ys h = subst (λ (k : ℕ). take k (xs ++ ys) ≡ xs) h (take-append xs ys)

pub drop_at : (n : ℕ) (xs ys : Bytes) → length xs ≡ n → drop n (xs ++ ys) ≡ ys
drop_at n xs ys h = subst (λ (k : ℕ). drop k (xs ++ ys) ≡ ys) h (drop-append xs ys)

pub valid-injective : {A : Type 0} {a b : A} → valid a ≡ valid b → a ≡ b
valid-injective h = cc

module _ (p : Primitives) (laws : PrimitiveLaws p) where
  -- If the libraries keep their laws, a secret key is marshalled to the 64 bytes of seed that it
  -- was parsed from.
  pub marshal_secret-parse_secret_key :
      (seed : Bytes) → length seed ≡ 64 → marshal_secret p (parse_secret_key p seed) ≡ seed
  unfolding marshal_secret parse_secret_key Eddsa.marshal_secret
  marshal_secret-parse_secret_key seed sized =
      let (first, last) = length-take_at 32 32 seed (omega arith) in
      rw (laws.ed_seed_of (drop 32 seed) last, to_array_whole 32 (drop 32 seed) last)
        (take-append-drop 32 seed)

  -- If the libraries keep their laws, whatever public key is parsed from 1984 bytes is marshalled
  -- to the bytes that it was parsed from.
  pub marshal_public-parse_public_key :
      (b : Bytes) (k : PublicKey p)
      → length b ≡ 1984
      → parse_public_key p b ≡ valid k
      → marshal_public p k ≡ b
  unfolding parse_public_key marshal_public Mldsa.parse_public_key Eddsa.parse_public_key
      Mldsa.marshal_public Eddsa.marshal_public
  marshal_public-parse_public_key b k sized h =
      let (first, last) = length-take_at 1952 32 b (omega arith) in
      let (ml, parsed, whole) = laws.ml_unmarshals (take 1952 b) first in
      elim (Bool-cases (p.ed_is_point (drop 1952 b))) [
        | inl yes_ ↦
            let same = valid-injective (rw (yes_, ◌>>=◌, Mldsa.parse_public_key, parsed) at h) in
            rw
              (
                ← same,
                whole,
                to_array_whole 1952 (take 1952 b) first,
                to_array_whole 32 (drop 1952 b) last,
              )
              (take-append-drop 1952 b)
        | inr no_ ↦ absurd (cc (rw no_ at h))
      ]

  module _ (seed : Bytes) (sized : length seed ≡ 64) where
    abbrev ml_bytes : Bytes
    ml_bytes = p.ml_marshal_binary (p.ml_public (p.ml_new_key_from_seed (take 32 seed)))

    abbrev ed_bytes : Bytes
    ed_bytes = p.ed_public (p.ed_new_key_from_seed (drop 32 seed))

    first_half : length (take 32 seed) ≡ 32
    first_half = (length-take_at 32 32 seed (omega arith)).0

    second_half : length (drop 32 seed) ≡ 32
    second_half = (length-take_at 32 32 seed (omega arith)).1

    marshal_public-bytes :
        marshal_public p (public_key p (parse_secret_key p seed)) ≡ ml_bytes ++ ed_bytes
    unfolding marshal_public public_key parse_secret_key Mldsa.marshal_public Eddsa.marshal_public
        Mldsa.public_key Eddsa.public_key Mldsa.parse_secret_key Eddsa.parse_secret_key
    marshal_public-bytes =
        ap₂ (λ (a b : Bytes). a ++ b)
          (to_array_whole 1952 ml_bytes (laws.ml_marshals (take 32 seed) first_half).0)
          (to_array_whole 32 ed_bytes (laws.ed_point (drop 32 seed) second_half).0)

    parsed_bytes :
        (ml ed : Bytes)
        → length ml ≡ 1952
        → ml ≡ ml_bytes
        → ed ≡ ed_bytes
        → parse_public_key p (ml ++ ed) ≡ valid (public_key p (parse_secret_key p seed))
    unfolding parse_public_key public_key parse_secret_key Mldsa.parse_public_key
        Eddsa.parse_public_key Mldsa.public_key Eddsa.public_key Mldsa.parse_secret_key
        Eddsa.parse_secret_key
    parsed_bytes ml ed size same_ml same_ed = rw (
      drop_at 1952 ml ed size,
      take_at 1952 ml ed size,
      same_ed,
      (laws.ed_point (drop 32 seed) second_half).1,
      same_ml,
      ◌>>=◌,
      Mldsa.parse_public_key,
      (laws.ml_marshals (take 32 seed) first_half).1,
    )

    -- The public key of a parsed secret key is parsed back from its bytes.
    pub parse_public_key-marshal_public :
        parse_public_key p (marshal_public p (public_key p (parse_secret_key p seed)))
        ≡ valid (public_key p (parse_secret_key p seed))
    parse_public_key-marshal_public =
        ap (parse_public_key p) marshal_public-bytes
        ∙ parsed_bytes ml_bytes ed_bytes (laws.ml_marshals (take 32 seed) first_half).0 refl refl

    pub length-marshal_public :
        length (marshal_public p (public_key p (parse_secret_key p seed))) ≡ 1984
    length-marshal_public =
        ap length marshal_public-bytes
        ∙ length-append ml_bytes ed_bytes
        ∙ omega (
          arith,
          (laws.ml_marshals (take 32 seed) first_half).0,
          (laws.ed_point (drop 32 seed) second_half).0,
        )
