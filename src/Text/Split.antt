-- ===== src/Text/Split.antt =====
-- What `split` makes of a text that was put together with separators.
use simple_twitter.Common.{
  ℕ, ◌≡◌, ◌≢◌, refl, [], ◌∷◌, ◌++◌, arith, All, get_elem?, List, some, Bool-cases, inl, inr, ◌==◌,
}
use simple_twitter.Common.Order.{Bytes}
use simple_twitter.Text.{push, split}

abbrev pub Lacks : ℕ → Bytes → Type 0
Lacks sep = All (λ c. c ≢ sep)

pub split-append :
    (sep : ℕ) (p rest : Bytes) → Lacks sep p → split sep (p ++ sep ∷ rest) ≡ p ∷ split sep rest
unfolding split
split-append sep [] rest h = ground arith
split-append sep (c ∷ p) rest h = ground (arith, split-append sep p rest h.1)

pub split-Lacks : (sep : ℕ) (p : Bytes) → Lacks sep p → split sep p ≡ p ∷ []
unfolding split
split-Lacks sep [] h = refl
split-Lacks sep (c ∷ p) h = ground (arith, split-Lacks sep p h.1)

-- The part before the first separator does not depend on what follows it.
pub split_first :
    (sep : ℕ) (p rest : Bytes)
    → get_elem? (split sep (p ++ sep ∷ rest)) 0 ≡ get_elem? (split sep p) 0
unfolding split
split_first sep [] rest = ground arith
split_first sep (c ∷ p) rest = ground (arith, split_first sep p rest)

get_elem?-push : (c : ℕ) (ps : List Bytes) → (p : Bytes) × (get_elem? (push c ps) 0 ≡ some p)
get_elem?-push c [] = (c ∷ [], refl)
get_elem?-push c (p ∷ ps) = (c ∷ p, refl)

-- A text has at least one part.
pub split-first_part : (sep : ℕ) (s : Bytes) → (p : Bytes) × (get_elem? (split sep s) 0 ≡ some p)
unfolding split
split-first_part sep [] = ([], refl)
split-first_part sep (c ∷ s) = elim (Bool-cases (c == sep)) [
  | inl cut ↦ ([], ground arith)
  | inr other ↦ let (p, at) = get_elem?-push c (split sep s) in (p, ground (arith, at))
]
