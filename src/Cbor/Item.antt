-- ===== src/Cbor/Item.antt =====
-- The strict subset of CBOR that package cbor permits (the comment at the top of cbor/cbor.go), as
-- data: what an item is, its one encoding, when it is valid, and how deeply it nests.
use darkbio_crypto_go.Base.{ℕ, suc, ◌<◌, ◌≡◌, Option, none, some, Bool, true, ◌++◌, [], length, All}
use darkbio_crypto_go.Base.Int.{ℤ, IsInt64}
use darkbio_crypto_go.Cbor.Types.{Bytes, IsByte, IsLength, IsU64}
use darkbio_crypto_go.Cbor.Layout.{header}
use darkbio_crypto_go.Cbor.Utf8
use darkbio_crypto_go.Cbor.KeyOrder.{rank}
use darkbio_crypto_go.Cbor.Methods.{
  int_encoding, bytes_encoding, text_encoding, bool_encoding, null_encoding,
}
use Prim.Native.Nat.{max}

-- `nint n` is the integer -(n + 1).
mutual
  pub data Item : Type 0 where
    uint : ℕ → Item
    nint : ℕ → Item
    bytes : Bytes → Item
    text : Bytes → Item
    array : Items → Item
    map : Pairs → Item
    bool : Bool → Item
    null : Item

  pub data Items : Type 0 where
    nil : Items
    cons : Item → Items → Items

  pub data Pairs : Type 0 where
    end : Pairs
    pair : ℤ → Item → Pairs → Pairs

abbrev pub count : Items → ℕ
count nil = 0
count (cons x xs) = suc (count xs)

abbrev pub count_pairs : Pairs → ℕ
count_pairs end = 0
count_pairs (pair k x ps) = suc (count_pairs ps)

unfoldable mutual
  pub encoding : Item → Bytes
  encoding (uint n) = header 0 n
  encoding (nint n) = header 1 n
  encoding (bytes b) = bytes_encoding b
  encoding (text t) = text_encoding t
  encoding (array xs) = header 4 (count xs) ++ encoding_items xs
  encoding (map ps) = header 5 (count_pairs ps) ++ encoding_pairs ps
  encoding (bool b) = bool_encoding b
  encoding null = null_encoding

  pub encoding_items : Items → Bytes
  encoding_items nil = []
  encoding_items (cons x xs) = encoding x ++ encoding_items xs

  pub encoding_pairs : Pairs → Bytes
  encoding_pairs end = []
  encoding_pairs (pair k x ps) = int_encoding k ++ (encoding x ++ encoding_pairs ps)

-- The key stands behind the key before it.
abbrev pub After : Option ℤ → ℤ → Type 0
After none key = Unit {0}
After (some prev) key = rank prev < rank key

abbrev mutual
  pub Valid : Item → Type 0
  Valid (uint n) = IsU64 n
  Valid (nint n) = IsU64 n
  Valid (bytes b) = All IsByte b × IsLength (length b)
  Valid (text t) = All IsByte t × IsLength (length t) × (Utf8.valid t ≡ true)
  Valid (array xs) = IsU64 (count xs) × ValidItems xs
  Valid (map ps) = IsU64 (count_pairs ps) × ValidPairs ps none
  Valid (bool b) = Unit {0}
  Valid null = Unit {0}

  pub ValidItems : Items → Type 0
  ValidItems nil = Unit {0}
  ValidItems (cons x xs) = Valid x × ValidItems xs

  pub ValidPairs : Pairs → Option ℤ → Type 0
  ValidPairs end prev = Unit {0}
  ValidPairs (pair k x ps) prev = IsInt64 k × After prev k × Valid x × ValidPairs ps (some k)

abbrev mutual
  pub depth : Item → ℕ
  depth (array xs) = suc (depth_items xs)
  depth (map ps) = suc (depth_pairs ps)
  depth _ = 1

  pub depth_items : Items → ℕ
  depth_items nil = 0
  depth_items (cons x xs) = max (depth x) (depth_items xs)

  pub depth_pairs : Pairs → ℕ
  depth_pairs end = 0
  depth_pairs (pair k x ps) = max (depth x) (depth_pairs ps)
