-- ===== src/Cose/Outcome.antt =====
-- The results of the functions of cose/cose.go, with the error values of the package.
use darkbio_crypto_go.Base.{◌≡◌, refl, Bool, true, false, Option, none, some}
use darkbio_crypto_go.Cbor.Types
use darkbio_crypto_go.Cbor.Types.{Result, ok, err}

-- The error values; the details that fmt.Errorf adds to one are not kept. `cbor` is an error that
-- Marshal or Unmarshal returned.
pub data CoseError : Type 0 where
  cbor : Types.Error → CoseError
  unexpected_algorithm unexpected_key unexpected_payload missing_payload : CoseError
  invalid_signature stale_signature invalid_encap_key_size decryption_failed : CoseError

-- Go's (value, error) pair, where a value stands only beside a nil error, or a panic.
pub data Outcome {ℓ} (A : Type ℓ) : Type ℓ where
  returned : A → Outcome A
  failed : CoseError → Outcome A
  panicked : Outcome A

infixl 5 ◌>>=◌ ◌>>◌
abbrev pub ◌>>=◌ {ℓ κ} : {A : Type ℓ} {B : Type κ} → Outcome A → (A → Outcome B) → Outcome B
returned a >>= f = f a
failed e >>= f = failed e
panicked >>= f = panicked

abbrev pub ◌>>◌ {ℓ} : {B : Type ℓ} → Outcome (Unit {0}) → Outcome B → Outcome B
m >> k = m >>= λ _. k

-- `if err != nil { return err }`
abbrev pub or_return {ℓ} : {A : Type ℓ} → Result A → Outcome A
or_return (ok a) = returned a
or_return (err e) = failed (cbor e)

-- `if err != nil { panic(err) }`
abbrev pub or_panic {ℓ} : {A : Type ℓ} → Result A → Outcome A
or_panic (ok a) = returned a
or_panic (err e) = panicked

-- `if test { return err }`, with the test negated.
abbrev pub guard : Bool → CoseError → Outcome (Unit {0})
guard true e = returned tt
guard false e = failed e

-- `if value == nil { return err }`
abbrev pub present {ℓ} : {A : Type ℓ} → Option A → CoseError → Outcome A
present none e = failed e
present (some a) e = returned a

-- Inversion of a successful chain.
pub >>=-eq-returned {ℓ κ} :
    {A : Type ℓ} {B : Type κ} (m : Outcome A) (f : A → Outcome B) {b : B}
    → (m >>= f) ≡ returned b
    → (a : A) × (m ≡ returned a) × (f a ≡ returned b)
>>=-eq-returned (returned a) f h = (a, refl, h)
>>=-eq-returned (failed e) f h = cc
>>=-eq-returned panicked f h = cc

pub or_return-eq-returned {ℓ} :
    {A : Type ℓ} (r : Result A) {a : A} → or_return r ≡ returned a → r ≡ ok a
or_return-eq-returned (ok a) h = cc
or_return-eq-returned (err e) h = cc

pub or_panic-eq-returned {ℓ} :
    {A : Type ℓ} (r : Result A) {a : A} → or_panic r ≡ returned a → r ≡ ok a
or_panic-eq-returned (ok a) h = cc
or_panic-eq-returned (err e) h = cc

pub present-eq-returned {ℓ} :
    {A : Type ℓ} (o : Option A) (e : CoseError) {a : A} → present o e ≡ returned a → o ≡ some a
present-eq-returned none e h = cc
present-eq-returned (some a) e h = cc

-- Inversion of a test that passed and what follows it.
pub guard-eq-returned {ℓ} :
    {B : Type ℓ} (test : Bool) (e : CoseError) (m : Outcome B) {b : B}
    → (guard test e >> m) ≡ returned b
    → (test ≡ true) × (m ≡ returned b)
guard-eq-returned true e m h = (refl, h)
guard-eq-returned false e m h = cc

-- The same of a test that is the last thing done.
pub guard-eq-returned_tt : (test : Bool) (e : CoseError) → guard test e ≡ returned tt → test ≡ true
guard-eq-returned_tt true e h = refl
guard-eq-returned_tt false e h = cc

pub returned-injective {ℓ} : {A : Type ℓ} {a b : A} → returned a ≡ returned b → a ≡ b
returned-injective h = cc
