-- ===== src/Cbor/Accepts.antt =====
-- verifyObject (cbor/cbor.go) accepts the encoding of every valid item that nests no deeper than
-- its limit.
use darkbio_crypto_go.Base.{
  ℕ, zero, suc, ◌+◌, ◌≤◌, ◌<◌, ◌≡◌, refl, sym, ap, Option, none, some, true, false, ◌++◌, [], ◌∷◌,
  length, arith, inl, inr, ◌⊎◌, subst, append-nil, lt→compare,
}
use darkbio_crypto_go.Base.Int.{ℤ, IsInt64}
use darkbio_crypto_go.Cbor.Types.{Bytes, IsU64}
use darkbio_crypto_go.Cbor.Layout.{info_of, width_of, header}
use darkbio_crypto_go.Cbor.BigEndian.{be_bytes}
use native.Mathlib.Nat.{add-zero}
use darkbio_crypto_go.Cbor.KeyOrder.{map_key_cmp-rank}
use darkbio_crypto_go.Cbor.Methods.{Reads-after_header, decode_int-Reads, int_encoding}
use darkbio_crypto_go.Cbor.Item.{
  Item, Items, Pairs, uint, nint, bytes, text, array, map, bool, null, nil, cons, end, pair, count,
  count_pairs, encoding, encoding_items, encoding_pairs, Valid, ValidItems, ValidPairs, After,
  depth, depth_items, depth_pairs,
}
use darkbio_crypto_go.Cbor.Decoder.{M, done, ◌>>=◌, pure, read_bytes, decode_int}
use darkbio_crypto_go.Cbor.Cursor.{Reads, Reads-bind, read_bytes-Reads}
use darkbio_crypto_go.Cbor.Verify.{verify_object, verify_body, repeat, verify_pairs, follows}

abbrev pub IsKey : Option ℤ → Type 0
IsKey none = Unit {0}
IsKey (some k) = IsInt64 k

follows-After :
    (prev : Option ℤ) (k : ℤ) → IsKey prev → IsInt64 k → After prev k → follows prev k ≡ true
follows-After none k hp hk a = refl
follows-After (some p) k hp hk a = rw (map_key_cmp-rank p k hp hk, lt→compare _ _ a)

-- Reading nothing more.
pure-Reads {ℓ} : {A : Type ℓ} (a : A) → Reads (pure a) [] a
pure-Reads a d rest at = ap (λ (n : ℕ). done a (record d { cursor = n })) (sym (add-zero d.cursor))

abbrev pub Verified : M (Unit {0}) → Bytes → Type 0
Verified p enc = Reads p enc (tt {0})

header_only :
    (n major v : ℕ)
    → major < 8
    → IsU64 v
    → Verified (verify_body (verify_object n) major v) []
    → Verified (verify_object (suc n)) (header major v)
unfolding verify_object
header_only n major v hm hv r =
    subst (Verified (verify_object (suc n))) (append-nil (header major v))
      (Reads-after_header major v (λ (m, w). verify_body (verify_object n) m w) [] tt hm hv r)

ignore {ℓ} :
    {A : Type ℓ} (p : M A) (enc : Bytes) (a : A) → Reads p enc a → Verified (p >>= λ _. pure tt) enc
ignore p enc a r d rest at = rw (r d rest at, ◌>>=◌)

depth_pos : (x : Item) → 0 < depth x
depth_pos (array xs) = omega arith
depth_pos (map ps) = omega arith
depth_pos _ = omega arith

simple_reads :
    (n v : ℕ) → (v ≡ 20) ⊎ (v ≡ 21) ⊎ (v ≡ 22) → Verified (verify_object (suc n)) ((0xe0 + v) ∷ [])
unfolding header verify_body info_of width_of be_bytes
simple_reads n v (inl e) = rw e (header_only n 7 20 (omega arith) (omega arith) (pure-Reads tt))
simple_reads n v (inr (inl e)) =
    rw e (header_only n 7 21 (omega arith) (omega arith) (pure-Reads tt))
simple_reads n v (inr (inr e)) =
    rw e (header_only n 7 22 (omega arith) (omega arith) (pure-Reads tt))

mutual
  unfolding verify_object encoding

  accepts : (x : Item) (n : ℕ) → Valid x → depth x ≤ n → Verified (verify_object n) (encoding x)
  accepts x zero v h = absurd (omega (arith, depth_pos x))
  accepts (uint k) (suc n) v h = header_only n 0 k (omega arith) v (pure-Reads tt)
  accepts (nint k) (suc n) v h = header_only n 1 k (omega arith) v (pure-Reads tt)
  accepts (bytes b) (suc n) (hb, len) h =
      Reads-after_header 2 (length b) _ b tt (omega arith) (omega arith)
        (ignore (read_bytes (length b)) b b (read_bytes-Reads b len))
  accepts (text t) (suc n) (ht, len, utf8) h =
      Reads-after_header 3 (length t) _ t tt (omega arith) (omega arith)
        (λ d rest at. rw (read_bytes-Reads t len d rest at, ◌>>=◌, utf8))
  accepts (array xs) (suc n) (len, v) h =
      Reads-after_header 4 (count xs) _ (encoding_items xs) tt (omega arith) len
        (accepts_items xs n v (omega arith))
  accepts (map ps) (suc n) (len, v) h =
      Reads-after_header 5 (count_pairs ps) _ (encoding_pairs ps) tt (omega arith) len
        (accepts_pairs ps none n tt v (omega arith))
  accepts (bool true) (suc n) v h = simple_reads n 21 (inr (inl refl))
  accepts (bool false) (suc n) v h = simple_reads n 20 (inl refl)
  accepts null (suc n) v h = simple_reads n 22 (inr (inr refl))

  accepts_items :
      (xs : Items) (n : ℕ)
      → ValidItems xs
      → depth_items xs ≤ n
      → Verified (repeat (count xs) (verify_object n)) (encoding_items xs)
  accepts_items nil n v h = pure-Reads tt
  accepts_items (cons x xs) n (v, vs) h =
      Reads-bind (verify_object n) (λ _. repeat (count xs) (verify_object n)) (encoding x)
        (encoding_items xs) tt tt (accepts x n v (omega arith))
        (accepts_items xs n vs (omega arith))

  accepts_pairs :
      (ps : Pairs) (prev : Option ℤ) (n : ℕ)
      → IsKey prev
      → ValidPairs ps prev
      → depth_pairs ps ≤ n
      → Verified (verify_pairs (count_pairs ps) prev (verify_object n)) (encoding_pairs ps)
  accepts_pairs end prev n hp v h = pure-Reads tt
  accepts_pairs (pair k x ps) prev n hp (hk, after, v, vs) h =
      Reads-bind decode_int _ (int_encoding k) (encoding x ++ encoding_pairs ps) k tt
        (decode_int-Reads k hk)
        (rw (follows-After prev k hp hk after) (
          Reads-bind (verify_object n)
            (λ _. verify_pairs (count_pairs ps) (some k) (verify_object n)) (encoding x)
            (encoding_pairs ps) tt tt (accepts x n v (omega arith))
            (accepts_pairs ps (some k) n hk vs (omega arith))))

-- The headline statement, outside the block.
pub verify_object_reads :
    (x : Item) (n : ℕ) → Valid x → depth x ≤ n → Verified (verify_object n) (encoding x)
verify_object_reads x n v h = accepts x n v h
