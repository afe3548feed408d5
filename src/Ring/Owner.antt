-- ===== src/Ring/Owner.antt =====
-- The server of a key is its successor on the ring.
use simple_twitter.Common.{
  ℕ, ◌≤◌, ◌<◌, ◌≡◌, ◌≢◌, ◌⊎◌, inl, inr, refl, true, some, List, [], ◌∷◌, arith, length, get_elem?,
  done, Returns, dec_lt, Returns-done,
}
use simple_twitter.Common.Order.{Bytes, nat_order}
use simple_twitter.Search.Sorted.{IsSorted, rank, rank-le-length}
use simple_twitter.Search.Rank.{binary_search_uint32-rank}
use simple_twitter.Slices.{has}
use simple_twitter.Hash.{store_hash}
use simple_twitter.Ring.{search_hash_ring}

-- `id` is the first server at or behind `hash`; if there is none, the first of all servers.
abbrev pub IsSuccessor : List ℕ → ℕ → ℕ → Type 0
IsSuccessor ring hash id =
    (has id ring ≡ true)
    × (((hash ≤ id) × ((other : ℕ) → has other ring ≡ true → hash ≤ other → id ≤ other))
        ⊎ (((other : ℕ) → has other ring ≡ true → (other < hash) × (id ≤ other))))

head_least :
    (x : ℕ) (xs : List ℕ) → IsSorted (x ∷ xs) → (other : ℕ) → has other (x ∷ xs) ≡ true → x ≤ other
unfolding has
head_least x [] s other h = ground arith
head_least x (y ∷ xs) s other h = ground (arith, head_least y xs s.1 other)

-- Past the end of the rank everything is less than the value.
all_below :
    (v : ℕ) (xs : List ℕ) (other : ℕ) → rank v xs ≡ length xs → has other xs ≡ true → other < v
unfolding rank has
all_below v [] other e h = ground arith
all_below v (x ∷ xs) other e h = ground (arith, all_below v xs other)

at_rank :
    (v : ℕ) (xs : List ℕ)
    → IsSorted xs
    → rank v xs < length xs
    → (id : ℕ) × (get_elem? xs (rank v xs) ≡ some id)
      × (has id xs ≡ true)
      × (v ≤ id)
      × ((other : ℕ) → has other xs ≡ true → v ≤ other → id ≤ other)
unfolding rank has
at_rank v [] s h = absurd (omega arith)
at_rank v (x ∷ xs) s h = elim (dec_lt x v) [
  | yes p ↦
      let (id, e, m, le, least) = at_rank v xs s.1 (ground arith) in
      (id, ground arith, ground arith, le, λ other i j. ground (arith, least other))
  | no p ↦ (
    x,
    ground arith,
    ground arith,
    omega arith,
    λ other i j. unfold has in head_least x xs s other i,
  )
]

-- On a ring with a server in it the lookup returns, and the server that it returns is the successor
-- of the key's hash: the least identifier not below the hash, or the least of all if there is none.
pub search_hash_ring-IsSuccessor :
    (ring : List ℕ) (key : Bytes) (hash : ℕ)
    → IsSorted ring
    → ring ≢ []
    → store_hash key ≡ done hash
    → Returns (search_hash_ring ring key) (IsSuccessor ring hash)
unfolding search_hash_ring
search_hash_ring-IsSuccessor [] key hash s h e = absurd (h refl)
search_hash_ring-IsSuccessor (x ∷ xs) key hash s h e =
    rw (e, binary_search_uint32-rank (x ∷ xs) hash s)
      (elim (dec_lt (rank hash (x ∷ xs)) (length (x ∷ xs))) [
        | yes p ↦
            let (id, at, m, le, least) = at_rank hash (x ∷ xs) s p in
            Returns-done _ (IsSuccessor (x ∷ xs) hash) id (ground (arith, at)) (m, inl (le, least))
        | no p ↦
            let all : rank hash (x ∷ xs) ≡ length (x ∷ xs) =
              omega (arith, rank-le-length hash (x ∷ xs)) in
            Returns-done _ (IsSuccessor (x ∷ xs) hash) x (ground (arith, all)) (
              unfold has in ground arith,
              inr (λ other m. (all_below hash (x ∷ xs) other all m, head_least x xs s other m)),
            )
      ])
