-- ===== src/Cbor/Skip.antt =====
-- skipObject, which captures a Raw, against verifyObject (both cbor/cbor.go).
use darkbio_crypto_go.Base.{
  ℕ, zero, suc, ◌≡◌, Option, none, some, Bool, true, false, if◌then◌else◌, arith,
}
use darkbio_crypto_go.Base.Int.{ℤ}
use darkbio_crypto_go.Cbor.Decoder.{Decoder, M, done, ◌>>=◌, ◌>>◌, throw, decode_header, decode_int}
use darkbio_crypto_go.Cbor.Cursor.{>>=-eq-done}
use darkbio_crypto_go.Cbor.Types.{invalid_map_key_order}
use darkbio_crypto_go.Cbor.Verify.{
  skip_object, skip_body, verify_object, verify_body, repeat, verify_pairs, follows,
}

-- Wherever `p` succeeds, `q` succeeds and leaves the decoder in the same place.
abbrev pub Covers : M (Unit {0}) → M (Unit {0}) → Type 0
Covers q p = (d d' : Decoder) → p d ≡ done tt d' → q d ≡ done tt d'

repeat-Covers : (p q : M (Unit {0})) → Covers q p → (k : ℕ) → Covers (repeat k q) (repeat k p)
unfolding repeat
repeat-Covers p q h zero d d' e = e
repeat-Covers p q h (suc k) d d' e =
    let (u, d₁, first, rest) = >>=-eq-done p (λ _. repeat k p) d d' tt e in
    rw (h d d₁ first, ◌>>=◌) (repeat-Covers p q h k d₁ d' rest)

-- A key is an integer, which skipObject passes over wherever it may descend at all.
key_skipped :
    (n : ℕ) (d d' : Decoder) (k : ℤ) → decode_int d ≡ done k d' → skip_object (suc n) d ≡ done tt d'
unfolding decode_int skip_object
key_skipped n d d' k e =
    let ((m, v), d₁, header_read, rest) = >>=-eq-done decode_header _ d d' k e in
    rw (header_read, ◌>>=◌) (ground arith)

key_covered :
    (n : ℕ) (d d₁ d₂ : Decoder) (k : ℤ)
    → decode_int d ≡ done k d₁
    → verify_object n d₁ ≡ done tt d₂
    → skip_object n d ≡ done tt d₁
unfolding verify_object
key_covered zero d d₁ d₂ k e v = cc
key_covered (suc n) d d₁ d₂ k e v = key_skipped n d d₁ k e

follows_inv :
    (test : Bool) (p : M (Unit {0})) (d d' : Decoder)
    → (if test then p else throw invalid_map_key_order) d ≡ done tt d'
    → p d ≡ done tt d'
follows_inv true p d d' e = e
follows_inv false p d d' e = cc

pairs-Covers :
    (n k : ℕ) (prev : Option ℤ)
    → Covers (skip_object n) (verify_object n)
    → Covers (repeat k (skip_object n >> skip_object n)) (verify_pairs k prev (verify_object n))
unfolding repeat verify_pairs
pairs-Covers n zero prev h d d' e = e
pairs-Covers n (suc k) prev h d d' e =
    let (key, d₁, read, rest) = >>=-eq-done decode_int _ d d' tt e in
    let inner = follows_inv (follows prev key) _ d₁ d' rest in
    let (u, d₂, value, more) = >>=-eq-done (verify_object n) _ d₁ d' tt inner in
    rw (key_covered n d d₁ d₂ key read value, ◌>>=◌, h d₁ d₂ value)
      (pairs-Covers n k (some key) h d₂ d' more)

body-Covers :
    (n m v : ℕ)
    → Covers (skip_object n) (verify_object n)
    → Covers (skip_body (skip_object n) m v) (verify_body (verify_object n) m v)
unfolding skip_body verify_body
body-Covers n m v h d d' e =
    ground (
      arith,
      repeat-Covers (verify_object n) (skip_object n) h v d d',
      pairs-Covers n v none h d d',
    )

-- Whatever verifyObject accepts, skipObject passes over, and it stops at the same place.
pub skip_object-Covers : (n : ℕ) → Covers (skip_object n) (verify_object n)
unfolding skip_object verify_object
skip_object-Covers zero d d' e = cc
skip_object-Covers (suc n) d d' e =
    let ((m, v), d₁, header_read, rest) = >>=-eq-done decode_header _ d d' tt e in
    rw (header_read, ◌>>=◌) (body-Covers n m v (skip_object-Covers n) d₁ d' rest)
