-- ===== src/Search/Ends.antt =====
-- The searches end, on any slice: the fuel is enough whether or not the slice is ascending.
use simple_twitter.Common.{
  ℕ, zero, suc, ◌+◌, ◌-◌, ◌/◌, ◌≤◌, ◌<◌, ◌≡◌, refl, List, length, get_elem?, get_elem?-in_range,
  ◌⊎◌, arith, leb, Outcome, done, index, Bool-cases, inl, inr,
}
use simple_twitter.Common.Order.{Order, Bytes, bytes_order}
use simple_twitter.Search.{Probe, hit, below, above, probe, search_loop, binary_search_string}

Probe-cases : (p : Probe) → (p ≡ hit) ⊎ (p ≡ below) ⊎ (p ≡ above)
Probe-cases hit = inl refl
Probe-cases below = inr (inl refl)
Probe-cases above = inr (inr refl)

module _ {ℓ} {K : Type ℓ} ⦃o : Order K⦄ where
  search_loop-ends :
      (read : ℕ → Outcome K) (val : K) (n fuel i hi : ℕ)
      → ((m : ℕ) → m < n → (x : K) × (read m ≡ done x))
      → i ≤ hi
      → hi ≤ n
      → hi < i + fuel
      → (r : ℕ) × (search_loop read val fuel i hi ≡ done r) × (r ≤ n)
  unfolding search_loop
  search_loop-ends read val n zero i hi reads p q h = absurd (omega arith)
  search_loop-ends read val n (suc fuel) i hi reads p q h = elim (Bool-cases (leb hi i)) [
    | inl over ↦ (i, rw (over, search_loop) refl, omega arith)
    | inr more ↦
        let mid = (i + (hi - 1)) / 2 in
        let (x, at) = reads mid (ground arith) in
        elim (Probe-cases (probe val x)) [
          | inl e ↦ (mid, ground arith, ground arith)
          | inr (inl e) ↦
              let (r, ends, le) =
                search_loop-ends read val n fuel (mid + 1) hi reads (ground arith) q
                  (ground arith) in
              (r, ground arith, le)
          | inr (inr e) ↦
              let (r, ends, le) =
                search_loop-ends read val n fuel i mid reads (ground arith) (ground arith)
                  (ground arith) in
              (r, ground arith, le)
        ]
  ]

-- On any slice, ascending or not, `BinarySearchString` returns an index that is at most the length.
pub binary_search_string-ends :
    (vals : List Bytes) (val : Bytes)
    → (i : ℕ) × (binary_search_string vals val ≡ done i) × (i ≤ length vals)
unfolding binary_search_string
binary_search_string-ends vals val =
    search_loop-ends (λ m. index (get_elem? vals m)) val (length vals) (suc (length vals)) 0
      (length vals) (λ m h. let (x, e) = get_elem?-in_range vals m h in (x, rw e refl))
      (omega arith) (omega arith) (omega arith)
