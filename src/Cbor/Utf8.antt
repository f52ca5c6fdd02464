-- ===== src/Cbor/Utf8.antt =====
-- unicode/utf8's Valid and ValidString, which cbor/cbor.go calls: no overlong form, no surrogate,
-- nothing above U+10FFFF.
use darkbio_crypto_go.Base.{
  ℕ, zero, suc, Bool, true, false, ◌&&◌, [], ◌∷◌, ltb, leb, ◌==◌, if◌then◌else◌,
}
use darkbio_crypto_go.Cbor.Types.{Bytes}

-- `more` bytes of the current character are still to come, the next one between `low` and `high`.
-- A lead byte fixes the range of the byte after it; the others are continuation bytes.
unfoldable pub valid_from : ℕ → ℕ → ℕ → Bytes → Bool
valid_from zero low high [] = true
valid_from (suc more) low high [] = false
valid_from (suc more) low high (b ∷ bs) = leb low b && leb b high && valid_from more 0x80 0xbf bs
valid_from zero low high (b ∷ bs) =
    let ascii = valid_from 0 0x80 0xbf bs in
    let two = valid_from 1 0x80 0xbf bs in
    let three_e0 = valid_from 2 0xa0 0xbf bs in
    let three_ed = valid_from 2 0x80 0x9f bs in
    let three = valid_from 2 0x80 0xbf bs in
    let four_f0 = valid_from 3 0x90 0xbf bs in
    let four_f4 = valid_from 3 0x80 0x8f bs in
    let four = valid_from 3 0x80 0xbf bs in
    if ltb b 0x80
    then ascii
    else if ltb b 0xc2
    then false
    else if ltb b 0xe0
    then two
    else if b == 0xe0
    then three_e0
    else if b == 0xed
    then three_ed
    else if ltb b 0xf0
    then three
    else if b == 0xf0
    then four_f0
    else if b == 0xf4
    then four_f4
    else if ltb b 0xf4
    then four
    else false

unfoldable pub valid : Bytes → Bool
unfolding valid_from
valid = valid_from 0 0x80 0xbf
