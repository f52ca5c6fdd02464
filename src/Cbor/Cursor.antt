-- ===== src/Cbor/Cursor.antt =====
-- Reasoning about the Decoder's cursor: what is still to be read, and what a method reads.
use darkbio_crypto_go.Base.{
  ℕ, suc, ◌+◌, ◌≤◌, ◌≡◌, refl, sym, ap, subst, ◌∙◌, ◌++◌, [], ◌∷◌, arith, some, append_assoc,
  length, drop, take, All, length-append, length-drop, length-take_le, take-append, drop-append,
  drop-drop, get_elem?-drop, drop-get_elem?, get_elem?-lt, take-append-drop, All-drop,
  All-append_left,
}
use native.Mathlib.Nat.{add_assoc, add-zero}
use darkbio_crypto_go.Cbor.Types.{Bytes, IsByte, IsLength}
use darkbio_crypto_go.Cbor.Decoder.{Decoder, Run, M, done, fail, ◌>>=◌, advance, peek, read_bytes}

-- The cursor lies within the data, and `rest` is what follows it.
pub record IsAt (d : Decoder) (rest : Bytes) : Type 0 where
  pub fits : d.cursor ≤ length d.data_
  pub here : drop d.cursor d.data_ ≡ rest

-- The data are bytes, and the cursor lies within them.
pub record IsValid (d : Decoder) : Type 0 where
  pub fits : d.cursor ≤ length d.data_
  pub bytes : All IsByte d.data_

pub IsAt-length :
    (d : Decoder) (rest : Bytes) → IsAt d rest → d.cursor + length rest ≡ length d.data_
IsAt-length d rest h = omega (arith, h.fits, length-drop d.cursor d.data_, ap length h.here)

pub IsAt-advance :
    (d : Decoder) (xs rest : Bytes) → IsAt d (xs ++ rest) → IsAt (advance d (length xs)) rest
IsAt-advance d xs rest h = record {
  fits = omega (arith, IsAt-length d (xs ++ rest) h, length-append xs rest);
  here =
      sym (drop-drop d.cursor (length xs) d.data_)
      ∙ ap (drop (length xs)) h.here
      ∙ drop-append xs rest;
}

pub IsAt-peek : (d : Decoder) (b : ℕ) (rest : Bytes) → IsAt d (b ∷ rest) → peek d ≡ some b
IsAt-peek d b rest h = get_elem?-drop d.cursor d.data_ h.here

pub advance-advance : (d : Decoder) (m n : ℕ) → advance (advance d m) n ≡ advance d (m + n)
advance-advance d m n = ap (λ (k : ℕ). record d { cursor = k }) (add_assoc d.cursor m n)

-- Wherever `enc` is next, `p` returns `a` and moves the cursor behind it.
abbrev pub Reads {ℓ} : {A : Type ℓ} → M A → Bytes → A → Type ℓ
Reads p enc a =
    (d : Decoder) (rest : Bytes) → IsAt d (enc ++ rest) → p d ≡ done a (advance d (length enc))

pub Reads-bind {ℓ κ} :
    {A : Type ℓ} {B : Type κ} (p : M A) (f : A → M B) (xs ys : Bytes) (a : A) (b : B)
    → Reads p xs a
    → Reads (f a) ys b
    → Reads (p >>= f) (xs ++ ys) b
Reads-bind p f xs ys a b hp hf d rest h =
    rw (hp d (ys ++ rest) at_xs, ◌>>=◌)
      (hf (advance d (length xs)) rest (IsAt-advance d xs (ys ++ rest) at_xs) ∙ ap (done b) moved)
  where
    at_xs : IsAt d (xs ++ (ys ++ rest))
    at_xs = rw append_assoc at h

    moved : advance (advance d (length xs)) (length ys) ≡ advance d (length (xs ++ ys))
    moved = advance-advance d (length xs) (length ys) ∙ ap (advance d) (sym (length-append xs ys))

pub read_bytes-Reads : (xs : Bytes) → IsLength (length xs) → Reads (read_bytes (length xs)) xs xs
unfolding read_bytes
read_bytes-Reads xs small d rest h =
    ground (arith, IsAt-length d (xs ++ rest) h, length-append xs rest, h.here, take-append xs rest)

-- What a successful method has read: `enc` stood at the cursor, and the cursor now stands behind it.
pub record Consumes (d : Decoder) (enc : Bytes) (d' : Decoder) : Type 0 where
  pub rest : Bytes
  pub before : IsAt d (enc ++ rest)
  pub moved : d' ≡ advance d (length enc)

-- With the data bytes, whatever `p` returns comes from an encoding that it read, as `P` says.
abbrev pub Sound {ℓ κ} : {A : Type ℓ} → M A → (A → Bytes → Type κ) → Type (ℓ ⊔ κ)
Sound {A = A} p P =
    (d d' : Decoder) (a : A)
    → IsValid d
    → p d ≡ done a d'
    → (enc : Bytes) × P a enc × Consumes d enc d'

pub Consumes-after : (d d' : Decoder) (enc : Bytes) → (c : Consumes d enc d') → IsAt d' c.rest
Consumes-after d d' enc c = rw c.moved (IsAt-advance d enc c.rest c.before)

pub Consumes-IsValid : (d d' : Decoder) (enc : Bytes) → IsValid d → Consumes d enc d' → IsValid d'
Consumes-IsValid d d' enc v c =
    rw c.moved (record { fits = (IsAt-advance d enc c.rest c.before).fits; bytes = v.bytes })

pub Consumes-IsByte :
    (d d' : Decoder) (enc : Bytes) → IsValid d → Consumes d enc d' → All IsByte enc
Consumes-IsByte d d' enc v c =
    All-append_left IsByte enc c.rest
      (subst (All IsByte) c.before.here (All-drop IsByte d.cursor d.data_ v.bytes))

pub Consumes-nil : (d : Decoder) → IsValid d → Consumes d [] d
Consumes-nil d v = record {
  rest = drop d.cursor d.data_;
  before = record { fits = v.fits; here = refl };
  moved = ap (λ (n : ℕ). record d { cursor = n }) (sym (add-zero d.cursor));
}

pub Consumes-one :
    (d : Decoder) (b : ℕ) → IsValid d → peek d ≡ some b → Consumes d (b ∷ []) (advance d 1)
Consumes-one d b v e = record {
  rest = drop (suc d.cursor) d.data_;
  before = record { fits = v.fits; here = drop-get_elem? d.cursor d.data_ e };
  moved = refl;
}

pub IsValid-one : (d : Decoder) (b : ℕ) → IsValid d → peek d ≡ some b → IsValid (advance d 1)
IsValid-one d b v e = record {
  fits = omega (arith, get_elem?-lt d.cursor d.data_ e);
  bytes = v.bytes;
}

pub Consumes-append :
    (d d₁ d₂ : Decoder) (xs ys : Bytes)
    → Consumes d xs d₁
    → Consumes d₁ ys d₂
    → Consumes d (xs ++ ys) d₂
Consumes-append d d₁ d₂ xs ys c₁ c₂ = record {
  rest = c₂.rest;
  before = rw (append_assoc, ← same) c₁.before;
  moved =
      c₂.moved
      ∙ ap (λ (e : Decoder). advance e (length ys)) c₁.moved
      ∙ advance-advance d (length xs) (length ys)
      ∙ ap (advance d) (sym (length-append xs ys));
}
  where
    same : c₁.rest ≡ ys ++ c₂.rest
    same = sym (Consumes-after d d₁ xs c₁).here ∙ c₂.before.here

pub read_bytes_inv :
    (n : ℕ) (d d' : Decoder) (xs : Bytes)
    → read_bytes n d ≡ done xs d'
    → IsLength n
      × (d.cursor + n ≤ length d.data_)
      × (xs ≡ take n (drop d.cursor d.data_))
      × (d' ≡ advance d n)
unfolding read_bytes
read_bytes_inv n d d' xs h = ground arith

-- What readBytes(n) returns: the `n` bytes that stood at the cursor.
abbrev pub TakenBytes : ℕ → Bytes → Bytes → Type 0
TakenBytes n xs enc = (xs ≡ enc) × (length enc ≡ n) × IsLength n × All IsByte enc

pub read_bytes_sound : (n : ℕ) → Sound (read_bytes n) (TakenBytes n)
read_bytes_sound n d d' xs v h =
    let (small, enough, taken, moved) = read_bytes_inv n d d' xs h in
    let ahead = drop d.cursor d.data_ in
    let len : length (take n ahead) ≡ n =
      length-take_le n ahead (omega (arith, length-drop d.cursor d.data_)) in
    let c : Consumes d (take n ahead) d' = record {
      rest = drop n ahead;
      before = record { fits = v.fits; here = sym (take-append-drop n ahead) };
      moved = moved ∙ ap (advance d) (sym len);
    } in
    (take n ahead, (taken, len, small, Consumes-IsByte d d' (take n ahead) v c), c)

-- Inversion of a successful bind.
pub >>=-eq-done {ℓ κ} :
    {A : Type ℓ} {B : Type κ} (p : M A) (f : A → M B) (d d' : Decoder) (b : B)
    → (p >>= f) d ≡ done b d'
    → (a : A) × (d₁ : Decoder) × (p d ≡ done a d₁) × (f a d₁ ≡ done b d')
>>=-eq-done {A = A} {B = B} p f d d' b h = go (p d) refl h
  where
    go :
        (r : Run A)
        → p d ≡ r
        → elim r [ done a d₁ ↦ f a d₁ | fail e d₁ ↦ fail e d₁ ] ≡ done b d'
        → (a : A) × (d₁ : Decoder) × (p d ≡ done a d₁) × (f a d₁ ≡ done b d')
    go (done a d₁) e h = (a, d₁, e, h)
    go (fail x d₁) e h = cc
