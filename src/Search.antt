-- ===== src/Search.antt =====
-- src/util/common.go and src/libstore/libstore_impl.go: the binary searches.
-- `hi` is the source's `j + 1`, so that it stays a natural number: `i <= j` is `i < hi`, and
-- `j = mid-1` is `hi = mid`.
pub mod Rank
pub mod Ends
pub mod Sorted
use simple_twitter.Common.{
  ℕ, zero, suc, ◌+◌, ◌-◌, ◌/◌, ◌≡◌, Bool, true, false, Option, none, some, List, length, get_elem?,
  leb, Outcome, done, panic, index, ◌>>=◌,
}
use simple_twitter.Common.Order.{Order, Bytes, nat_order, bytes_order}

-- What the two tests of a round tell of the element in the middle.
pub data Probe : Type 0 where
  hit below above : Probe

module _ {ℓ} {K : Type ℓ} ⦃o : Order K⦄ where
  unfoldable pub probe : K → K → Probe
  probe val x = elim (o.eqb x val) [
    | true ↦ hit
    | false ↦ elim (o.ltb x val) [ true ↦ below | false ↦ above ]
  ]

  -- The loop; `read m` is `vals[m]`, and the fuel bounds the number of rounds.
  unfoldable pub search_loop : (ℕ → Outcome K) → K → ℕ → ℕ → ℕ → Outcome ℕ
  unfolding probe
  search_loop read val zero i hi = panic
  search_loop read val (suc fuel) i hi = elim (leb hi i) [
    | true ↦ done i
    | false ↦
        let mid = (i + (hi - 1)) / 2 in
        read mid >>= λ x. elim (probe val x) [
          | hit ↦ done mid
          | below ↦ search_loop read val fuel (mid + 1) hi
          | above ↦ search_loop read val fuel i mid
        ]
  ]

-- One round more than there are elements is enough.
unfoldable pub binary_search_string : List Bytes → Bytes → Outcome ℕ
unfolding search_loop
binary_search_string vals val =
    search_loop (λ m. index (get_elem? vals m)) val (suc (length vals)) 0 (length vals)

unfoldable pub binary_search_uint32 : List ℕ → ℕ → Outcome ℕ
unfolding search_loop
binary_search_uint32 vals val =
    search_loop (λ m. index (get_elem? vals m)) val (suc (length vals)) 0 (length vals)
