-- ===== src/Slices.antt =====
-- The way in which every ordered slice of the program is changed in place: grow by one element and
-- `copy` the tail to the right, or `copy` the tail to the left and cut off the last element.
pub mod Sets
pub mod Last
use simple_twitter.Common.{
  ℕ, zero, suc, Bool, true, false, ◌||◌, List, [], ◌∷◌, Outcome, done, panic, ◌>>=◌, if◌then◌else◌,
}
use simple_twitter.Common.Order.{Order}

module _ {ℓ} {A : Type ℓ} where
  -- `xs = append(xs, v); copy(xs[i+1:], xs[i:]); xs[i] = v`, which panics past the end of `xs`.
  unfoldable pub insert_at : ℕ → A → List A → Outcome (List A)
  insert_at zero v xs = done (v ∷ xs)
  insert_at (suc i) v [] = panic
  insert_at (suc i) v (x ∷ xs) = insert_at i v xs >>= λ rest. done (x ∷ rest)

  -- `copy(xs[i:], xs[i+1:])`, then `xs[:len(xs)-1]`, which panics where nothing stands at `i`.
  unfoldable pub remove_at : ℕ → List A → Outcome (List A)
  remove_at i [] = panic
  remove_at zero (x ∷ xs) = done xs
  remove_at (suc i) (x ∷ xs) = remove_at i xs >>= λ rest. done (x ∷ rest)

-- The set that an ascending slice stands for, and the ascending slice with one element more or less.
module _ {ℓ} {K : Type ℓ} ⦃o : Order K⦄ where
  unfoldable pub has : K → List K → Bool
  has v [] = false
  has v (x ∷ xs) = o.eqb x v || has v xs

  unfoldable pub insert_sorted : K → List K → List K
  insert_sorted v [] = v ∷ []
  insert_sorted v (x ∷ xs) = if o.ltb x v then x ∷ insert_sorted v xs else v ∷ x ∷ xs

  unfoldable pub remove : K → List K → List K
  remove v [] = []
  remove v (x ∷ xs) = if o.eqb x v then xs else x ∷ remove v xs
