-- ===== src/Search/Rank.antt =====
-- The binary searches find the rank of the value in a sorted slice.
use simple_twitter.Common.{
  ℕ, zero, suc, ◌+◌, ◌-◌, ◌/◌, ◌≤◌, ◌<◌, ◌≡◌, some, List, arith, length, get_elem?,
  get_elem?-in_range, dec_lt, Outcome, done, index,
}
use simple_twitter.Common.Order.{Order, Bytes, bytes_order, nat_order}
use simple_twitter.Search.{search_loop, binary_search_string, binary_search_uint32}
use simple_twitter.Search.Sorted.{IsSorted, rank, rank-le-length, rank-le, lt-rank, rank_hit}

module _ {ℓ} {K : Type ℓ} ⦃o : Order K⦄ where
  -- From any window around the rank, with more fuel than the window is wide.
  pub search_loop-rank :
      (read : ℕ → Outcome K) (val : K) (xs : List K)
      → IsSorted xs
      → ((m : ℕ) (x : K) → get_elem? xs m ≡ some x → read m ≡ done x)
      → (fuel i hi : ℕ) → i ≤ rank val xs
      → rank val xs ≤ hi
      → hi ≤ length xs
      → hi < i + fuel
      → search_loop read val fuel i hi ≡ done (rank val xs)
  unfolding search_loop
  search_loop-rank read val xs s reads zero i hi p q r f = absurd (omega arith)
  search_loop-rank read val xs s reads (suc fuel) i hi p q r f = elim (dec_lt i hi) [
    | no stop ↦ ground arith
    | yes go ↦
        let mid = (i + (hi - 1)) / 2 in
        let (x, at) = get_elem?-in_range xs mid (omega arith) in
        ground (
          arith,
          reads mid x at,
          o.eqb_iff x val,
          rank-le val xs mid x at,
          lt-rank val xs mid x s at,
          rank_hit val xs mid s,
          search_loop-rank read val xs s reads fuel (mid + 1) hi,
          search_loop-rank read val xs s reads fuel i mid,
        )
  ]

  pub search_loop_full :
      (read : ℕ → Outcome K) (val : K) (xs : List K)
      → IsSorted xs
      → ((m : ℕ) (x : K) → get_elem? xs m ≡ some x → read m ≡ done x)
      → search_loop read val (suc (length xs)) 0 (length xs) ≡ done (rank val xs)
  search_loop_full read val xs s reads =
      search_loop-rank read val xs s reads (suc (length xs)) 0 (length xs) (omega arith)
        (rank-le-length val xs) (omega arith) (omega arith)

-- On an ascending slice `BinarySearchString` returns, and returns the number of strings less than
-- the value.
pub binary_search_string-rank :
    (vals : List Bytes) (val : Bytes)
    → IsSorted vals
    → binary_search_string vals val ≡ done (rank val vals)
unfolding binary_search_string
binary_search_string-rank vals val s =
    search_loop_full (λ m. index (get_elem? vals m)) val vals s (λ m x e. rw e)

-- On an ascending slice `BinarySearchUint32` returns the number of elements less than the value.
pub binary_search_uint32-rank :
    (vals : List ℕ) (val : ℕ) → IsSorted vals → binary_search_uint32 vals val ≡ done (rank val vals)
unfolding binary_search_uint32
binary_search_uint32-rank vals val s =
    search_loop_full (λ m. index (get_elem? vals m)) val vals s (λ m x e. rw e)
