-- ===== src/Common/Run.antt =====
-- How a Go routine ends: it returns a value, it panics (an index out of range), or it calls
-- `log.Fatal` and the process exits.
use mathlib.Core.Path.{◌≡◌, refl}
use mathlib.Core.Option.{Option, none, some}

pub data Outcome {ℓ} (A : Type ℓ) : Type ℓ where
  done : A → Outcome A
  panic : Outcome A
  fatal : Outcome A

infixl 5 ◌>>=◌
abbrev pub ◌>>=◌ {ℓ κ} : {A : Type ℓ} {B : Type κ} → Outcome A → (A → Outcome B) → Outcome B
done a >>= f = f a
panic >>= f = panic
fatal >>= f = fatal

-- An index expression `xs[i]`, given what stands at `i`.
abbrev pub index {ℓ} : {A : Type ℓ} → Option A → Outcome A
index none = panic
index (some a) = done a

pub done-injective {ℓ} : {A : Type ℓ} {a b : A} → done a ≡ done b → a ≡ b
done-injective e = cc

-- The run returns, with a result that satisfies `P`.
abbrev pub Returns {ℓ} : {A : Type ℓ} → Outcome A → (A → Type 0) → Type 0
Returns (done a) P = P a
Returns panic P = ⊥
Returns fatal P = ⊥

pub Returns-map {ℓ} :
    {A : Type ℓ} (m : Outcome A) {P Q : A → Type 0}
    → ((a : A) → P a → Q a)
    → Returns m P
    → Returns m Q
Returns-map (done a) f h = f a h
Returns-map panic f h = h
Returns-map fatal f h = h

pub Returns-done {ℓ} :
    {A : Type ℓ} (m : Outcome A) (P : A → Type 0) (a : A) → m ≡ done a → P a → Returns m P
Returns-done m P a e h = rw e h

-- A run that returns has a result.
pub Returns-result {ℓ} :
    {A : Type ℓ} (m : Outcome A) (P : A → Type 0) → Returns m P → (a : A) × (m ≡ done a) × P a
Returns-result (done a) P h = (a, refl, h)
Returns-result panic P h = absurd h
Returns-result fatal P h = absurd h

pub Returns-bind {ℓ κ} :
    {A : Type ℓ} {B : Type κ} (m : Outcome A) (f : A → Outcome B) (P : A → Type 0) (Q : B → Type 0)
    → Returns m P
    → ((a : A) → P a → Returns (f a) Q)
    → Returns (m >>= f) Q
Returns-bind (done a) f P Q h k = k a h
Returns-bind panic f P Q h k = h
Returns-bind fatal f P Q h k = h
