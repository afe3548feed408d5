-- ===== src/Slices/Last.antt =====
-- What the last element of an ascending slice tells of a value's place in it.
use simple_twitter.Common.{
  ◌<◌, ◌≡◌, true, false, some, List, [], ◌∷◌, ◌++◌, arith, All, get_last?, length,
}
use simple_twitter.Common.Order.{Order}
use simple_twitter.Search.Sorted.{IsSorted, rank}
use simple_twitter.Slices.{has, insert_sorted}

module _ {ℓ} {K : Type ℓ} ⦃o : Order K⦄ where
  All-last :
      (P : K → Type 0) (xs : List K) (last : K) → All P xs → get_last? xs ≡ some last → P last
  All-last P [] last h e = ground arith
  All-last P (x ∷ []) last h e = ground arith
  All-last P (x ∷ y ∷ xs) last h e = All-last P (y ∷ xs) last h.1 e

  -- Insertion behind the end is an append.
  pub insert_sorted_last :
      (val last : K) (xs : List K)
      → IsSorted xs
      → get_last? xs ≡ some last
      → o.ltb last val ≡ true
      → insert_sorted val xs ≡ xs ++ val ∷ []
  unfolding insert_sorted
  insert_sorted_last val last [] s e h = ground arith
  insert_sorted_last val last (x ∷ []) s e h = ground arith
  insert_sorted_last val last (x ∷ y ∷ xs) s e h = ground (
    arith,
    insert_sorted_last val last (y ∷ xs) s.1 e h,
    o.lt_trans x last val,
    All-last (λ z. o.ltb x z ≡ true) (y ∷ xs) last s.0 e,
  )

  -- A value that is not behind the last element has its place in front of the end.
  pub rank-lt-length :
      (val last : K) (xs : List K)
      → get_last? xs ≡ some last
      → o.ltb last val ≡ false
      → rank val xs < length xs
  unfolding rank
  rank-lt-length val last [] e h = ground arith
  rank-lt-length val last (x ∷ []) e h = ground arith
  rank-lt-length val last (x ∷ y ∷ xs) e h = ground (arith, rank-lt-length val last (y ∷ xs) e h)

  -- A value behind the last element is not in the slice.
  pub not_has-last :
      (val last : K) (xs : List K)
      → IsSorted xs
      → get_last? xs ≡ some last
      → o.ltb last val ≡ true
      → has val xs ≡ false
  unfolding has
  not_has-last val last [] s e h = ground arith
  not_has-last val last (x ∷ []) s e h = ground (arith, o.eqb_iff x val, o.lt_irrefl val)
  not_has-last val last (x ∷ y ∷ xs) s e h = ground (
    arith,
    not_has-last val last (y ∷ xs) s.1 e h,
    o.eqb_iff x val,
    o.lt_irrefl val,
    o.lt_trans val last val,
    All-last (λ z. o.ltb x z ≡ true) (y ∷ xs) last s.0 e,
  )
