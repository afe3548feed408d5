-- ===== src/Hash.antt =====
-- src/libstore/libstore_api.go: `StoreHash`, the hash by which keys are spread over the ring.
use Prim.Native.Nat.{bit_xor}
use simple_twitter.Common.{
  ℕ, ◌*◌, ◌%◌, ◌^◌, ◌≡◌, [], ◌∷◌, ◌++◌, get_elem?, index, Outcome, done, ◌>>=◌,
}
use simple_twitter.Common.Order.{Bytes}
use simple_twitter.Text.{split}
use simple_twitter.Text.Split.{split_first, split-first_part}

-- FNV-1 of `hash/fnv` over 32 bits: multiply, then exclusive or.
unfoldable pub fnv32 : Bytes → ℕ → ℕ
fnv32 [] h = h
fnv32 (c ∷ s) h = fnv32 s (bit_xor (h * 16777619 % 2 ^ 32) c)

-- The part of a key in front of its first colon is what is hashed.
unfoldable pub store_hash : Bytes → Outcome ℕ
unfolding fnv32
store_hash key = do prefix ← index (get_elem? (split b':' key) 0); done (fnv32 prefix 2166136261)

-- Keys that agree up to their first colon have the same hash.
pub store_hash-append :
    (p rest rest' : Bytes) → store_hash (p ++ b':' ∷ rest) ≡ store_hash (p ++ b':' ∷ rest')
unfolding store_hash
store_hash-append p rest rest' = rw (split_first b':' p rest, split_first b':' p rest')

-- A key always has a part in front of its first colon, so every key has a hash.
pub store_hash-returns : (key : Bytes) → (hash : ℕ) × (store_hash key ≡ done hash)
unfolding store_hash
store_hash-returns key =
    let (prefix, at) = split-first_part b':' key in (fnv32 prefix 2166136261, rw at)
