-- ===== src/Libstore/Heap.antt =====
-- Places on the heap of lease records, and the history of a record.
use simple_twitter.Common.{
  ℕ, zero, suc, ◌-◌, ◌≤◌, ◌≡◌, ◌≢◌, refl, none, some, List, [], ◌∷◌, ◌++◌, length, drop, get_elem?,
  get_last?, ap, arith,
}
use simple_twitter.Common.Int.{ℤ}
use simple_twitter.StorageServer.Proto.{query_cache_thresh}
use simple_twitter.Libstore.State.{set}
use simple_twitter.Libstore.Cache.{add_query}

module _ {ℓ} {A : Type ℓ} where
  pub get_elem?-set_same :
      (xs : List A) (i : ℕ) (v w : A) → get_elem? xs i ≡ some w → get_elem? (set xs i v) i ≡ some v
  get_elem?-set_same [] i v w h = cc
  get_elem?-set_same (x ∷ xs) zero v w h = refl
  get_elem?-set_same (x ∷ xs) (suc i) v w h = get_elem?-set_same xs i v w h

  pub get_elem?-set_other :
      (xs : List A) (i j : ℕ) (v : A) → i ≢ j → get_elem? (set xs i v) j ≡ get_elem? xs j
  get_elem?-set_other [] i j v h = refl
  get_elem?-set_other (x ∷ xs) zero zero v h = absurd (h refl)
  get_elem?-set_other (x ∷ xs) zero (suc j) v h = refl
  get_elem?-set_other (x ∷ xs) (suc i) zero v h = refl
  get_elem?-set_other (x ∷ xs) (suc i) (suc j) v h =
      get_elem?-set_other xs i j v (λ e. h (ap suc e))

  pub get_elem?-append_old :
      (xs ys : List A) (i : ℕ) (v : A) → get_elem? xs i ≡ some v → get_elem? (xs ++ ys) i ≡ some v
  get_elem?-append_old [] ys i v h = cc
  get_elem?-append_old (x ∷ xs) ys zero v h = h
  get_elem?-append_old (x ∷ xs) ys (suc i) v h = get_elem?-append_old xs ys i v h

  pub get_elem?-append_new : (xs : List A) (v : A) → get_elem? (xs ++ v ∷ []) (length xs) ≡ some v
  get_elem?-append_new [] v = refl
  get_elem?-append_new (x ∷ xs) v = get_elem?-append_new xs v

  pub get_elem?-append_back :
      (xs ys : List A) (i : ℕ) (w : A) → get_elem? xs i ≡ none → get_elem? xs i ≢ some w
  get_elem?-append_back xs ys i w h e = cc

  pub get_last?-used : (xs : List A) → 1 ≤ length xs → (x : A) × (get_last? xs ≡ some x)
  get_last?-used [] h = absurd (omega arith)
  get_last?-used (x ∷ []) h = (x, refl)
  get_last?-used (x ∷ y ∷ xs) h = get_last?-used (y ∷ xs) (omega arith)

  length-snoc : (xs : List A) (v : A) → length (xs ++ v ∷ []) ≡ suc (length xs)
  length-snoc [] v = refl
  length-snoc (x ∷ xs) v = ap suc (length-snoc xs v)

  length-drop : (n : ℕ) (xs : List A) → length (drop n xs) ≡ length xs - n
  length-drop zero xs = ground arith
  length-drop (suc n) [] = ground arith
  length-drop (suc n) (x ∷ xs) = ground (arith, length-drop n xs)

-- A history that is in use: from one to three queries.
abbrev pub IsUsed : List ℤ → Type 0
IsUsed history = (1 ≤ length history) × (length history ≤ query_cache_thresh)

-- Whatever the history was, with another query it is in use.
pub add_query-IsUsed : (now : ℤ) (history : List ℤ) → IsUsed (add_query now history)
unfolding add_query
add_query-IsUsed now history = ground (
  arith,
  length-snoc history now,
  length-drop (length (history ++ now ∷ []) - query_cache_thresh) (history ++ now ∷ []),
)

-- A write keeps every place of the heap.
pub set-keeps {ℓ} :
    {A : Type ℓ} (xs : List A) (i j : ℕ) (v w : A)
    → get_elem? xs j ≡ some w
    → (u : A) × (get_elem? (set xs i v) j ≡ some u)
set-keeps [] i j v w h = absurd cc
set-keeps (x ∷ xs) zero zero v w h = (v, refl)
set-keeps (x ∷ xs) zero (suc j) v w h = (w, h)
set-keeps (x ∷ xs) (suc i) zero v w h = (w, h)
set-keeps (x ∷ xs) (suc i) (suc j) v w h = set-keeps xs i j v w h

-- A write to the last place.
pub set-append_new {ℓ} :
    {A : Type ℓ} (xs : List A) (v w : A) → set (xs ++ v ∷ []) (length xs) w ≡ xs ++ w ∷ []
set-append_new [] v w = refl
set-append_new (x ∷ xs) v w = ap (λ ys. x ∷ ys) (set-append_new xs v w)

get_last?-snoc {ℓ} : {A : Type ℓ} (xs : List A) (v : A) → get_last? (xs ++ v ∷ []) ≡ some v
get_last?-snoc [] v = refl
get_last?-snoc (x ∷ []) v = refl
get_last?-snoc (x ∷ y ∷ xs) v = get_last?-snoc (y ∷ xs) v

get_last?-drop {ℓ} :
    {A : Type ℓ} (n : ℕ) (xs : List A) → suc n ≤ length xs → get_last? (drop n xs) ≡ get_last? xs
get_last?-drop zero xs h = refl
get_last?-drop (suc n) [] h = absurd (omega arith)
get_last?-drop (suc n) (x ∷ []) h = absurd (omega arith)
get_last?-drop (suc n) (x ∷ y ∷ xs) h = get_last?-drop n (y ∷ xs) (omega arith)

-- The query that was counted is the last of the history.
pub get_last?-add_query :
    (now : ℤ) (history : List ℤ) → get_last? (add_query now history) ≡ some now
unfolding add_query
get_last?-add_query now history =
    let longer = history ++ now ∷ [] in
    ground (
      arith,
      length-snoc history now,
      get_last?-snoc history now,
      get_last?-drop (length longer - query_cache_thresh) longer,
    )
