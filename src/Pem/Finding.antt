-- ===== src/Pem/Finding.antt =====
-- The searches of pem/pem.go in strings that are put together of parts.
use darkbio_crypto_go.Base.{
  ℕ, zero, suc, ◌+◌, ◌-◌, ◌≡◌, refl, ap, ◌∙◌, arith, some, true, false, ◌==◌, [], ◌∷◌, ◌++◌, length,
  take, drop, get_elem?, length-append, drop-append, Bool-cases, inl, inr, le→leb,
}
use darkbio_crypto_go.Cbor.Types.{Bytes}
use darkbio_crypto_go.Pem.Scan.{has_prefix, has_suffix, equal, index, remove_all, avoids}

pub equal_refl : (s : Bytes) → equal s s ≡ true
equal_refl [] = refl
equal_refl (c ∷ cs) = ground (arith, equal_refl cs)

pub has_prefix-append : (s t : Bytes) → has_prefix (s ++ t) s ≡ true
has_prefix-append [] t = refl
has_prefix-append (c ∷ cs) t = ground (arith, has_prefix-append cs t)

pub has_suffix-append : (s t : Bytes) → has_suffix (s ++ t) t ≡ true
has_suffix-append s t =
    let long : length (s ++ t) - length t ≡ length s = omega (arith, length-append s t) in
    let fits = le→leb (length t) (length (s ++ t)) (omega (arith, length-append s t)) in
    rw (fits, long, drop-append s t, equal_refl t)

pub avoids_cons :
    (x c : ℕ) (cs : Bytes) → avoids x (c ∷ cs) ≡ true → (c == x ≡ false) × (avoids x cs ≡ true)
avoids_cons x c cs h = ground arith

pub avoids-append :
    (x : ℕ) (s t : Bytes) → avoids x s ≡ true → avoids x t ≡ true → avoids x (s ++ t) ≡ true
avoids-append x [] t h k = k
avoids-append x (c ∷ cs) t h k =
    let (other, later) = avoids_cons x c cs h in rw (other, avoids-append x cs t later k)

-- What starts with a byte that the string before it lacks is found right behind that string.
pub index-append :
    (x : ℕ) (sep s t : Bytes)
    → avoids x s ≡ true
    → index (s ++ ((x ∷ sep) ++ t)) (x ∷ sep) ≡ some (length s)
index-append x sep [] t h =
    let same : x == x ≡ true = ground arith in rw (same, has_prefix-append sep t)
index-append x sep (c ∷ cs) t h =
    let (other, later) = avoids_cons x c cs h in rw (other, index-append x sep cs t later)

pub get_elem?-append : (s t : Bytes) (i : ℕ) → get_elem? (s ++ t) (length s + i) ≡ get_elem? t i
get_elem?-append [] t i = let e : 0 + i ≡ i = omega arith in rw e
get_elem?-append (c ∷ cs) t i =
    let e : suc (length cs) + i ≡ suc (length cs + i) = omega arith in
    rw (e, get_elem?-append cs t i)

pub drop-append_cons : (s t : Bytes) (x : ℕ) → drop (suc (length s)) (s ++ x ∷ t) ≡ t
drop-append_cons [] t x = refl
drop-append_cons (c ∷ cs) t x = drop-append_cons cs t x

remove_all-other :
    (c : ℕ) (cs : Bytes)
    → c == 10 ≡ false
    → remove_all (c ∷ cs) (10 ∷ []) ≡ c ∷ remove_all cs (10 ∷ [])
remove_all-other c cs h = ground arith

remove_all-line :
    (c : ℕ) (cs : Bytes) → c == 10 ≡ true → remove_all (c ∷ cs) (10 ∷ []) ≡ remove_all cs (10 ∷ [])
remove_all-line c cs h = ground arith

pub remove_all-append :
    (s t : Bytes)
    → avoids 10 s ≡ true
    → remove_all (s ++ 10 ∷ t) (10 ∷ []) ≡ s ++ remove_all t (10 ∷ [])
remove_all-append [] t h = refl
remove_all-append (c ∷ cs) t h =
    let (other, later) = avoids_cons 10 c cs h in
    remove_all-other c (cs ++ 10 ∷ t) other
    ∙ ap (λ (l : Bytes). c ∷ l) (remove_all-append cs t later)

pub remove_all-trailing : (s : Bytes) → remove_all (s ++ 10 ∷ []) (10 ∷ []) ≡ remove_all s (10 ∷ [])
remove_all-trailing [] = refl
remove_all-trailing (c ∷ cs) = elim (Bool-cases (c == 10)) [
  | inl line ↦
      rw (remove_all-line c (cs ++ 10 ∷ []) line, remove_all-line c cs line)
        (remove_all-trailing cs)
  | inr other ↦ rw (
    remove_all-other c (cs ++ 10 ∷ []) other,
    remove_all-other c cs other,
    remove_all-trailing cs,
  )
]

pub avoids-split :
    (x : ℕ) (s t : Bytes) → avoids x (s ++ t) ≡ true → (avoids x s ≡ true) × (avoids x t ≡ true)
avoids-split x [] t h = (refl, h)
avoids-split x (c ∷ cs) t h =
    let (other, later) = avoids_cons x c (cs ++ t) h in
    let (left, right) = avoids-split x cs t later in (rw (other, left), right)

pub drop-length-take : (n : ℕ) (s : Bytes) → drop (length (take n s)) s ≡ drop n s
drop-length-take zero s = refl
drop-length-take (suc n) [] = refl
drop-length-take (suc n) (c ∷ cs) = drop-length-take n cs
