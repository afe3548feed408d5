-- ===== src/Slices/Sets.antt =====
-- Changing an ascending slice at the rank of a value adds the value to the set, or takes it out.
use simple_twitter.Common.{
  ℕ, ◌≡◌, refl, Bool, true, false, not, ◌&&◌, ◌||◌, none, some, List, [], ◌∷◌, arith, All,
  get_elem?, done, sym, ◌∙◌, ap₂,
}
use simple_twitter.Common.Order.{Order}
use simple_twitter.Search.Sorted.{IsSorted, rank}
use simple_twitter.Slices.{insert_at, remove_at, has, insert_sorted, remove}

module _ {ℓ} {K : Type ℓ} ⦃o : Order K⦄ where
  pub insert_at-rank :
      (v : K) (xs : List K) → insert_at (rank v xs) v xs ≡ done (insert_sorted v xs)
  unfolding insert_at rank insert_sorted
  insert_at-rank v [] = refl
  insert_at-rank v (x ∷ xs) = ground (arith, insert_at-rank v xs)

  -- What the code reads off at the place that the search found.
  abbrev pub is_at : K → List K → ℕ → Bool
  is_at v xs i = elim (get_elem? xs i) [ none ↦ false | some x ↦ o.eqb x v ]

  All-has : (P : K → Type 0) (xs : List K) (v : K) → All P xs → has v xs ≡ true → P v
  unfolding has
  All-has P [] v h e = ground arith
  All-has P (x ∷ xs) v h e = ground (arith, All-has P xs v h.1, o.eqb_iff x v)

  -- An element in front of an ascending slice is not repeated in it.
  head_not_in : (x : K) (xs : List K) → IsSorted (x ∷ xs) → has x xs ≡ false
  head_not_in x xs s = ground (arith, All-has (λ y. o.ltb x y ≡ true) xs x s.0, o.lt_irrefl x)

  pub is_at-rank : (v : K) (xs : List K) → IsSorted xs → is_at v xs (rank v xs) ≡ has v xs
  unfolding rank has
  is_at-rank v [] s = refl
  is_at-rank v (x ∷ xs) s = ground (
    arith,
    is_at-rank v xs s.1,
    o.eqb_iff x v,
    o.lt_irrefl v,
    o.lt_total x v,
    All-has (λ y. o.ltb x y ≡ true) xs v s.0,
  )

  pub has-insert_sorted :
      (v w : K) (xs : List K) → has w (insert_sorted v xs) ≡ (o.eqb v w || has w xs)
  unfolding has insert_sorted
  has-insert_sorted v w [] = refl
  has-insert_sorted v w (x ∷ xs) = ground (arith, has-insert_sorted v w xs)

  All-insert_sorted :
      (P : K → Type 0) (v : K) (xs : List K) → P v → All P xs → All P (insert_sorted v xs)
  unfolding insert_sorted
  All-insert_sorted P v [] p h = (p, tt)
  All-insert_sorted P v (x ∷ xs) p h = ground (arith, All-insert_sorted P v xs p h.1)

  All-lt :
      (v x : K) (xs : List K)
      → o.ltb v x ≡ true
      → All (λ y. o.ltb x y ≡ true) xs
      → All (λ y. o.ltb v y ≡ true) xs
  All-lt v x [] p h = tt
  All-lt v x (y ∷ xs) p h = (o.lt_trans v x y p h.0, All-lt v x xs p h.1)

  pub insert_sorted-IsSorted :
      (v : K) (xs : List K) → IsSorted xs → has v xs ≡ false → IsSorted (insert_sorted v xs)
  unfolding has insert_sorted
  insert_sorted-IsSorted v [] s h = (tt, tt)
  insert_sorted-IsSorted v (x ∷ xs) s h = ground (
    arith,
    insert_sorted-IsSorted v xs s.1,
    All-insert_sorted (λ y. o.ltb x y ≡ true) v xs,
    o.lt_total x v,
    All-lt v x xs,
  )

  pub remove_at-rank :
      (v : K) (xs : List K)
      → IsSorted xs
      → has v xs ≡ true
      → remove_at (rank v xs) xs ≡ done (remove v xs)
  unfolding remove_at rank remove has
  remove_at-rank v [] s h = ground arith
  remove_at-rank v (x ∷ xs) s h = ground (
    arith,
    remove_at-rank v xs s.1,
    o.eqb_iff x v,
    o.lt_irrefl v,
    All-has (λ y. o.ltb x y ≡ true) xs v s.0,
  )

  pub has-remove :
      (v w : K) (xs : List K) → IsSorted xs → has w (remove v xs) ≡ (not (o.eqb v w) && has w xs)
  unfolding has remove
  has-remove v w [] s = ground arith
  has-remove v w (x ∷ xs) s = ground (
    arith,
    has-remove v w xs s.1,
    o.eqb_iff x v,
    o.eqb_iff v w,
    o.eqb_iff x w,
    head_not_in x xs s,
  )

  All-remove : (P : K → Type 0) (v : K) (xs : List K) → All P xs → All P (remove v xs)
  unfolding remove
  All-remove P v [] h = tt
  All-remove P v (x ∷ xs) h = ground (arith, All-remove P v xs h.1)

  pub remove-IsSorted : (v : K) (xs : List K) → IsSorted xs → IsSorted (remove v xs)
  unfolding remove
  remove-IsSorted v [] s = tt
  remove-IsSorted v (x ∷ xs) s =
      ground (arith, remove-IsSorted v xs s.1, All-remove (λ y. o.ltb x y ≡ true) v xs s.0)

  -- If a value of one ascending slice is in the other, the other's head is not above it.
  head_below :
      (x y : K) (ys : List K) → IsSorted (y ∷ ys) → has x (y ∷ ys) ≡ true → o.ltb x y ≡ false
  unfolding has
  head_below x y ys s h = ground (
    arith,
    o.eqb_iff y x,
    o.lt_irrefl x,
    o.lt_trans x y x,
    All-has (λ z. o.ltb y z ≡ true) ys x s.0,
  )

  has_head : (x : K) (xs : List K) → has x (x ∷ xs) ≡ true
  unfolding has
  has_head x xs = ground (arith, o.eqb_iff x x)

  -- Ascending slices of the same set are the same slice.
  pub sorted_ext :
      (xs ys : List K) → IsSorted xs → IsSorted ys → ((w : K) → has w xs ≡ has w ys) → xs ≡ ys
  sorted_ext [] [] s t h = refl
  sorted_ext [] (y ∷ ys) s t h = unfold has in cc (h y, has_head y ys)
  sorted_ext (x ∷ xs) [] s t h = unfold has in cc (h x, has_head x xs)
  sorted_ext (x ∷ xs) (y ∷ ys) s t h =
      let same : x ≡ y = ground (
        arith,
        head_below x y ys t (sym (h x) ∙ has_head x xs),
        head_below y x xs s (h y ∙ has_head y ys),
        o.lt_total x y,
        o.eqb_iff x y,
      ) in
      ap₂ ◌∷◌ same (
        sorted_ext xs ys s.1 t.1 λ w.
          unfold has in
          ground (arith, h w, o.eqb_iff x w, o.eqb_iff y w, head_not_in x xs s, head_not_in y ys t))

  -- What goes in and out again leaves an ascending slice as it was.
  pub remove-insert_sorted :
      (v : K) (xs : List K) → has v xs ≡ false → remove v (insert_sorted v xs) ≡ xs
  unfolding remove insert_sorted has
  remove-insert_sorted v [] h = ground (arith, o.eqb_iff v v)
  remove-insert_sorted v (x ∷ xs) h =
      ground (arith, remove-insert_sorted v xs, o.eqb_iff v v, o.eqb_iff x v)
