-- ===== src/Common/Order.antt =====
-- The order by which a sorted slice is searched: `==` and `<` of Go on `uint32` and on `string`.
use simple_twitter.Common.Tests.{ltb, ◌==◌, if◌then◌else◌}
use Prim.Native.Nat.{ℕ}
use mathlib.Core.Path.{◌≡◌, refl}
use mathlib.Core.Logic.{◌↔◌}
use mathlib.Core.Bool.{Bool, true, false, ◌&&◌}
use mathlib.Core.List.{List, [], ◌∷◌}
use native.Mathlib.Omega.{arith}

pub record Order {ℓ} (A : Type ℓ) : Type ℓ where
  pub eqb : A → A → Bool
  pub ltb : A → A → Bool
  pub eqb_iff : (a b : A) → (eqb a b ≡ true) ↔ (a ≡ b)
  pub lt_irrefl : (a : A) → ltb a a ≡ false
  pub lt_trans : (a b c : A) → ltb a b ≡ true → ltb b c ≡ true → ltb a c ≡ true
  pub lt_total : (a b : A) → eqb a b ≡ false → ltb a b ≡ false → ltb b a ≡ true

pub nat_eqb_iff : (a b : ℕ) → ((a == b) ≡ true) ↔ (a ≡ b)
nat_eqb_iff a b = ground arith

pub nat_lt_irrefl : (a : ℕ) → ltb a a ≡ false
nat_lt_irrefl a = ground arith

pub nat_lt_trans : (a b c : ℕ) → ltb a b ≡ true → ltb b c ≡ true → ltb a c ≡ true
nat_lt_trans a b c p q = ground arith

pub nat_lt_total : (a b : ℕ) → (a == b) ≡ false → ltb a b ≡ false → ltb b a ≡ true
nat_lt_total a b p q = ground arith

instance abbrev pub nat_order : Order ℕ
nat_order = record {
  eqb = ◌==◌;
  ltb = ltb;
  eqb_iff = nat_eqb_iff;
  lt_irrefl = nat_lt_irrefl;
  lt_trans = nat_lt_trans;
  lt_total = nat_lt_total;
}

-- A Go string is a sequence of bytes.
abbrev pub Bytes : Type 0
Bytes = List ℕ

unfoldable pub bytes_eqb : Bytes → Bytes → Bool
bytes_eqb [] [] = true
bytes_eqb [] (b ∷ t) = false
bytes_eqb (a ∷ s) [] = false
bytes_eqb (a ∷ s) (b ∷ t) = a == b && bytes_eqb s t

-- Strings are compared byte by byte.
unfoldable pub bytes_ltb : Bytes → Bytes → Bool
bytes_ltb [] [] = false
bytes_ltb [] (b ∷ t) = true
bytes_ltb (a ∷ s) [] = false
bytes_ltb (a ∷ s) (b ∷ t) = if ltb a b then true else a == b && bytes_ltb s t

pub bytes_eqb_iff : (s t : Bytes) → (bytes_eqb s t ≡ true) ↔ (s ≡ t)
unfolding bytes_eqb
bytes_eqb_iff [] [] = ground arith
bytes_eqb_iff [] (b ∷ t) = ground arith
bytes_eqb_iff (a ∷ s) [] = ground arith
bytes_eqb_iff (a ∷ s) (b ∷ t) = ground (arith, bytes_eqb_iff s t)

pub bytes_lt_irrefl : (s : Bytes) → bytes_ltb s s ≡ false
unfolding bytes_ltb
bytes_lt_irrefl [] = refl
bytes_lt_irrefl (a ∷ s) = ground (arith, bytes_lt_irrefl s)

pub bytes_lt_trans :
    (s t u : Bytes) → bytes_ltb s t ≡ true → bytes_ltb t u ≡ true → bytes_ltb s u ≡ true
unfolding bytes_ltb
bytes_lt_trans [] [] u p q = ground arith
bytes_lt_trans [] (b ∷ t) [] p q = ground arith
bytes_lt_trans [] (b ∷ t) (c ∷ u) p q = refl
bytes_lt_trans (a ∷ s) [] u p q = ground arith
bytes_lt_trans (a ∷ s) (b ∷ t) [] p q = ground arith
bytes_lt_trans (a ∷ s) (b ∷ t) (c ∷ u) p q = ground (arith, bytes_lt_trans s t u)

pub bytes_lt_total :
    (s t : Bytes) → bytes_eqb s t ≡ false → bytes_ltb s t ≡ false → bytes_ltb t s ≡ true
unfolding bytes_eqb bytes_ltb
bytes_lt_total [] [] p q = ground arith
bytes_lt_total [] (b ∷ t) p q = ground arith
bytes_lt_total (a ∷ s) [] p q = refl
bytes_lt_total (a ∷ s) (b ∷ t) p q = ground (arith, bytes_lt_total s t)

instance abbrev pub bytes_order : Order Bytes
bytes_order = record {
  eqb = bytes_eqb;
  ltb = bytes_ltb;
  eqb_iff = bytes_eqb_iff;
  lt_irrefl = bytes_lt_irrefl;
  lt_trans = bytes_lt_trans;
  lt_total = bytes_lt_total;
}
