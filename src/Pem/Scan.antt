-- ===== src/Pem/Scan.antt =====
-- What pem/pem.go calls of the packages bytes and strings, and the slices that it takes.
use darkbio_crypto_go.Base.{
  ℕ, zero, suc, ◌-◌, Option, none, some, Bool, true, false, ◌&&◌, not, ◌==◌, leb, if◌then◌else◌, [],
  ◌∷◌, length, take, drop,
}
use mathlib.Core.Option.{map}
use darkbio_crypto_go.Cbor.Types.{Bytes}

-- bytes.HasPrefix
abbrev pub has_prefix : Bytes → Bytes → Bool
has_prefix s [] = true
has_prefix [] (p ∷ ps) = false
has_prefix (c ∷ cs) (p ∷ ps) = c == p && has_prefix cs ps

-- bytes.Equal
abbrev pub equal : Bytes → Bytes → Bool
equal [] [] = true
equal [] (y ∷ ys) = false
equal (x ∷ xs) [] = false
equal (x ∷ xs) (y ∷ ys) = x == y && equal xs ys

-- bytes.HasSuffix
abbrev pub has_suffix : Bytes → Bytes → Bool
has_suffix s suffix =
    leb (length suffix) (length s) && equal (drop (length s - length suffix) s) suffix

-- bytes.Index
abbrev pub index : Bytes → Bytes → Option ℕ
index [] sep = if has_prefix [] sep then some 0 else none
index (c ∷ cs) sep =
    let later = index cs sep in
    if has_prefix (c ∷ cs) sep then some 0 else map (λ (i : ℕ). suc i) later

-- bytes.ReplaceAll(s, old, nil), for an `old` that is not empty, behind `skip` bytes of a match.
abbrev pub remove_from : ℕ → Bytes → Bytes → Bytes
remove_from skip [] old = []
remove_from (suc skip) (c ∷ cs) old = remove_from skip cs old
remove_from zero (c ∷ cs) old = elim (has_prefix (c ∷ cs) old) [
  | true ↦ remove_from (length old - 1) cs old
  | false ↦ c ∷ remove_from 0 cs old
]

abbrev pub remove_all : Bytes → Bytes → Bytes
remove_all s old = remove_from 0 s old

-- s[low:high], `none` where it panics.
abbrev pub slice : ℕ → ℕ → Bytes → Option Bytes
slice low high s =
    if leb low high && leb high (length s) then some (drop low (take high s)) else none

-- No byte of the string is `x`.
abbrev pub avoids : ℕ → Bytes → Bool
avoids x [] = true
avoids x (c ∷ cs) = not (c == x) && avoids x cs
