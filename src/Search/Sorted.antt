-- ===== src/Search/Sorted.antt =====
-- Strictly ascending slices, and the place of a value in one by a plain walk: the reference that
-- the binary searches are held to.
use simple_twitter.Common.{
  ℕ, zero, suc, ◌≤◌, ◌<◌, ◌≡◌, true, false, some, List, [], ◌∷◌, arith, All, length, get_elem?,
  if◌then◌else◌,
}
use simple_twitter.Common.Order.{Order}

module _ {ℓ} {K : Type ℓ} ⦃o : Order K⦄ where
  abbrev pub IsSorted : List K → Type 0
  IsSorted [] = Unit
  IsSorted (x ∷ xs) = All (λ y. o.ltb x y ≡ true) xs × IsSorted xs

  -- How many elements at the front are less than `val`.
  unfoldable pub rank : K → List K → ℕ
  rank val [] = 0
  rank val (x ∷ xs) = if o.ltb x val then suc (rank val xs) else 0

  pub All-get_elem? :
      (P : K → Type 0) (xs : List K) (m : ℕ) (x : K) → All P xs → get_elem? xs m ≡ some x → P x
  All-get_elem? P [] m x h e = ground arith
  All-get_elem? P (y ∷ xs) zero x h e = ground arith
  All-get_elem? P (y ∷ xs) (suc m) x h e = All-get_elem? P xs m x h.1 e

  pub rank-le-length : (val : K) (xs : List K) → rank val xs ≤ length xs
  unfolding rank
  rank-le-length val [] = omega arith
  rank-le-length val (x ∷ xs) = ground (arith, rank-le-length val xs)

  pub rank-le :
      (val : K) (xs : List K) (m : ℕ) (x : K)
      → get_elem? xs m ≡ some x
      → o.ltb x val ≡ false
      → rank val xs ≤ m
  unfolding rank
  rank-le val [] m x e h = omega arith
  rank-le val (y ∷ xs) zero x e h = ground arith
  rank-le val (y ∷ xs) (suc m) x e h = ground (arith, rank-le val xs m x)

  pub lt-rank :
      (val : K) (xs : List K) (m : ℕ) (x : K)
      → IsSorted xs
      → get_elem? xs m ≡ some x
      → o.ltb x val ≡ true
      → m < rank val xs
  unfolding rank
  lt-rank val [] m x s e h = ground arith
  lt-rank val (y ∷ xs) zero x s e h = ground arith
  lt-rank val (y ∷ xs) (suc m) x s e h = ground (
    arith,
    lt-rank val xs m x s.1 e h,
    o.lt_trans y x val,
    All-get_elem? (λ z. o.ltb y z ≡ true) xs m x s.0 e,
  )

  -- A value that stands in the slice stands at its rank.
  pub rank_hit :
      (val : K) (xs : List K) (m : ℕ) → IsSorted xs → get_elem? xs m ≡ some val → rank val xs ≡ m
  unfolding rank
  rank_hit val [] m s e = ground arith
  rank_hit val (y ∷ xs) zero s e = ground (arith, o.lt_irrefl val)
  rank_hit val (y ∷ xs) (suc m) s e =
      ground (arith, rank_hit val xs m s.1 e, All-get_elem? (λ z. o.ltb y z ≡ true) xs m val s.0 e)
