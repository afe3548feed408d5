-- ===== src/StwServer/Timelines/Counts.antt =====
-- Falling lists of times, told by how many of their times are at or after a given one.
use Prim.Native.Nat.{min}
use simple_twitter.Common.{
  ℕ, zero, suc, ◌+◌, ◌≡◌, refl, sym, ap₂, true, false, List, [], ◌∷◌, ◌++◌, take, if◌then◌else◌,
  arith, Bool-cases, inl, inr,
}
use simple_twitter.Common.Int.{ℤ, pos, negsuc, int_ltb}

abbrev pub IsFalling : List ℤ → Type 0
IsFalling [] = Unit
IsFalling (t ∷ []) = Unit
IsFalling (t ∷ u ∷ times) = (int_ltb t u ≡ false) × IsFalling (u ∷ times)

-- How many of the times are not before `v`.
unfoldable pub count_from : ℤ → List ℤ → ℕ
count_from v [] = 0
count_from v (t ∷ times) = let rest = count_from v times in if int_ltb t v then rest else suc rest

int_lt_irrefl : (a : ℤ) → int_ltb a a ≡ false
unfolding int_ltb
int_lt_irrefl (pos a) = ground arith
int_lt_irrefl (negsuc a) = ground arith

int_lt_antisym : (a b : ℤ) → int_ltb a b ≡ false → int_ltb b a ≡ false → a ≡ b
unfolding int_ltb
int_lt_antisym (pos a) (pos b) h k = ground arith
int_lt_antisym (pos a) (negsuc b) h k = absurd (cc)
int_lt_antisym (negsuc a) (pos b) h k = absurd (cc)
int_lt_antisym (negsuc a) (negsuc b) h k = ground arith

-- What is not above `t` is before whatever `t` is before.
int_lt_le : (u t v : ℤ) → int_ltb t u ≡ false → int_ltb t v ≡ true → int_ltb u v ≡ true
unfolding int_ltb
int_lt_le (pos u) (pos t) (pos v) h k = ground arith
int_lt_le (pos u) (pos t) (negsuc v) h k = absurd (cc)
int_lt_le (pos u) (negsuc t) v h k = absurd (cc)
int_lt_le (negsuc u) (pos t) (pos v) h k = refl
int_lt_le (negsuc u) (pos t) (negsuc v) h k = absurd (cc)
int_lt_le (negsuc u) (negsuc t) (pos v) h k = refl
int_lt_le (negsuc u) (negsuc t) (negsuc v) h k = ground arith

pub count_from-append :
    (v : ℤ) (xs ys : List ℤ) → count_from v (xs ++ ys) ≡ count_from v xs + count_from v ys
unfolding count_from
count_from-append v [] ys = omega arith
count_from-append v (t ∷ xs) ys = ground (arith, count_from-append v xs ys)

-- Behind a time that is before `v` nothing is at or after it.
count_from-below :
    (v t : ℤ) (times : List ℤ)
    → IsFalling (t ∷ times)
    → int_ltb t v ≡ true
    → count_from v (t ∷ times) ≡ 0
unfolding count_from
count_from-below v t [] f h = ground arith
count_from-below v t (u ∷ times) f h =
    ground (arith, int_lt_le u t v f.0 h, count_from-below v u times f.1)

tail-IsFalling : (t : ℤ) (times : List ℤ) → IsFalling (t ∷ times) → IsFalling times
tail-IsFalling t [] f = tt
tail-IsFalling t (u ∷ times) f = f.1

pub take-IsFalling : (n : ℕ) (times : List ℤ) → IsFalling times → IsFalling (take n times)
take-IsFalling zero times f = tt
take-IsFalling (suc n) [] f = tt
take-IsFalling (suc zero) (t ∷ []) f = tt
take-IsFalling (suc (suc n)) (t ∷ []) f = tt
take-IsFalling (suc zero) (t ∷ u ∷ times) f = tt
take-IsFalling (suc (suc n)) (t ∷ u ∷ times) f = (f.0, take-IsFalling (suc n) (u ∷ times) f.1)

pub count_from-take :
    (v : ℤ) (n : ℕ) (times : List ℤ)
    → IsFalling times
    → count_from v (take n times) ≡ min n (count_from v times)
unfolding count_from
count_from-take v zero times f = omega arith
count_from-take v (suc n) [] f = omega arith
count_from-take v (suc n) (t ∷ times) f = elim (Bool-cases (int_ltb t v)) [
  | inl below ↦ ground (
    arith,
    count_from-below v t times f below,
    count_from-take v n times (tail-IsFalling t times f),
  )
  | inr above ↦ rw above (omega (arith, count_from-take v n times (tail-IsFalling t times f)))
]

not_below :
    (x y : ℤ) (xs ys : List ℤ)
    → IsFalling (x ∷ xs)
    → count_from y (x ∷ xs) ≡ count_from y (y ∷ ys)
    → int_ltb x y ≡ false
unfolding count_from
not_below x y xs ys f h = elim (Bool-cases (int_ltb x y)) [
  | inl below ↦ ground (arith, count_from-below y x xs f below, int_lt_irrefl y)
  | inr e ↦ e
]

-- Two falling lists with the same counts are one list.
pub falling_ext :
    (xs ys : List ℤ)
    → IsFalling xs
    → IsFalling ys
    → ((v : ℤ) → count_from v xs ≡ count_from v ys)
    → xs ≡ ys
unfolding count_from
falling_ext [] [] f g h = refl
falling_ext [] (y ∷ ys) f g h = ground (arith, h y, int_lt_irrefl y)
falling_ext (x ∷ xs) [] f g h = ground (arith, h x, int_lt_irrefl x)
falling_ext (x ∷ xs) (y ∷ ys) f g h =
    let x-y = not_below x y xs ys f (h y) in
    let y-x = not_below y x ys xs g (sym (h x)) in
    let same : x ≡ y = int_lt_antisym x y x-y y-x in
    let rest : (v : ℤ) → count_from v xs ≡ count_from v ys = λ v. ground (arith, h v, same) in
    ap₂ ◌∷◌ same (falling_ext xs ys (tail-IsFalling x xs f) (tail-IsFalling y ys g) rest)
