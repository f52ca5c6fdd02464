-- ===== src/Cbor/Soundness.antt =====
-- Rules for what a successful run of a Decoder method has read, one for each way to build one.
use darkbio_crypto_go.Base.{◌≡◌, refl, Bool, true, false, ◌++◌, [], if◌then◌else◌, subst}
use darkbio_crypto_go.Cbor.Types.{Bytes, Error}
use darkbio_crypto_go.Cbor.Decoder.{M, ◌>>=◌, pure, throw}
use darkbio_crypto_go.Cbor.Cursor.{
  Sound, Consumes, Consumes-nil, Consumes-append, Consumes-IsValid, >>=-eq-done,
}

module _ {ℓ κ} {A : Type ℓ} (P : A → Bytes → Type κ) where
  pub Sound-pure : (a : A) → P a [] → Sound (pure a) P
  Sound-pure a h d d' b v e =
      let same : a ≡ b = cc in
      let moved : d ≡ d' = cc in
      ([], subst (λ (x : A). P x []) same h, subst (Consumes d []) moved (Consumes-nil d v))

  pub Sound-throw : (e : Error) → Sound (throw e) P
  Sound-throw e d d' b v h = cc

  pub Sound-if :
      (test : Bool) (p q : M A)
      → (test ≡ true → Sound p P)
      → (test ≡ false → Sound q P)
      → Sound (if test then p else q) P
  Sound-if true p q hp hq = hp refl
  Sound-if false p q hp hq = hq refl

module _ {ℓ ℓ' κ κ'} {A : Type ℓ} {B : Type ℓ'} (P : A → Bytes → Type κ)
    (Q : B → Bytes → Type κ') where
  pub Sound-bind :
      (p : M A) (f : A → M B)
      → Sound p P
      → ((a : A) (xs : Bytes) → P a xs → Sound (f a) (λ b ys. Q b (xs ++ ys)))
      → Sound (p >>= f) Q
  Sound-bind p f hp hf d d' b v h =
      let (a, d₁, e, g) = >>=-eq-done p f d d' b h in
      let (xs, pa, c₁) = hp d d₁ a v e in
      let (ys, qb, c₂) = hf a xs pa d₁ d' b (Consumes-IsValid d d₁ xs v c₁) g in
      (xs ++ ys, qb, Consumes-append d d₁ d' xs ys c₁ c₂)
