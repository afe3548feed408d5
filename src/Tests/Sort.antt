-- ===== src/Tests/Sort.antt =====
-- Insertion sort of post keys, as a `sort.Sort` that can be run.
use mathlib.Core.List.{Permᴰ}
use mathlib.Core.List.Permᴰ
use mathlib.Core.List.Permᴰ.{nil, cons, swap, trans}
use simple_twitter.Common.{
  ◌≡◌, refl, Bool, true, false, List, [], ◌∷◌, if◌then◌else◌, Bool-cases, inl, inr, arith,
}
use simple_twitter.Common.Int.{ℤ, pos, negsuc, int_ltb}
use simple_twitter.Common.Order.{Bytes}
use simple_twitter.StwServer.Timelines.{is_newer, time_of}
use simple_twitter.StwServer.Timelines.Sorting.{IsNewestFirst, IsSort}

unfoldable pub insert_key : Bytes → List Bytes → List Bytes
insert_key k [] = k ∷ []
insert_key k (j ∷ keys) =
    let rest = insert_key k keys in if is_newer j k then j ∷ rest else k ∷ j ∷ keys

unfoldable pub sort_keys : List Bytes → List Bytes
unfolding insert_key
sort_keys [] = []
sort_keys (k ∷ keys) = insert_key k (sort_keys keys)

int_ltb_asym : (a b : ℤ) → int_ltb a b ≡ true → int_ltb b a ≡ false
unfolding int_ltb
int_ltb_asym (pos a) (pos b) h = ground arith
int_ltb_asym (pos a) (negsuc b) h = absurd (cc)
int_ltb_asym (negsuc a) (pos b) h = refl
int_ltb_asym (negsuc a) (negsuc b) h = ground arith

newer_asym : (j k : Bytes) → is_newer j k ≡ true → is_newer k j ≡ false
unfolding is_newer
newer_asym j k h = int_ltb_asym (time_of k) (time_of j) h

insert_key-Permᴰ : (k : Bytes) (keys : List Bytes) → Permᴰ (insert_key k keys) (k ∷ keys)
unfolding insert_key
insert_key-Permᴰ k [] = Permᴰ.refl (k ∷ [])
insert_key-Permᴰ k (j ∷ keys) = elim (Bool-cases (is_newer j k)) [
  | inl newer ↦ rw newer (trans (cons refl (insert_key-Permᴰ k keys)) (swap refl refl))
  | inr other ↦ rw other (Permᴰ.refl (k ∷ j ∷ keys))
]

of_then :
    (x y : List Bytes) (b : Bool) → b ≡ true → IsNewestFirst (if b then x else y) → IsNewestFirst x
of_then x y true e h = h
of_then x y false e h = absurd (cc)

first_stays :
    (k i : Bytes) (keys : List Bytes)
    → is_newer i k ≡ true
    → IsNewestFirst (insert_key k (i ∷ keys))
    → IsNewestFirst (i ∷ insert_key k keys)
unfolding insert_key
first_stays k i keys below h = of_then (i ∷ insert_key k keys) (k ∷ i ∷ keys) (is_newer i k) below h

insert_key-IsNewestFirst :
    (k : Bytes) (keys : List Bytes) → IsNewestFirst keys → IsNewestFirst (insert_key k keys)
unfolding insert_key
insert_key-IsNewestFirst k [] o = tt
insert_key-IsNewestFirst k (j ∷ []) o = elim (Bool-cases (is_newer j k)) [
  | inl newer ↦ rw newer (newer_asym j k newer, tt)
  | inr other ↦ rw other (other, tt)
]
insert_key-IsNewestFirst k (j ∷ i ∷ keys) o = elim (Bool-cases (is_newer j k)) [
  | inl newer ↦ elim (Bool-cases (is_newer i k)) [
    | inl below ↦
        rw (newer, below)
          (o.0, first_stays k i keys below (insert_key-IsNewestFirst k (i ∷ keys) o.1))
    | inr above ↦ rw (newer, above) (newer_asym j k newer, (above, o.1))
  ]
  | inr other ↦ rw other (other, o)
]

sort_keys-Permᴰ : (keys : List Bytes) → Permᴰ (sort_keys keys) keys
unfolding sort_keys
sort_keys-Permᴰ [] = nil
sort_keys-Permᴰ (k ∷ keys) =
    trans (insert_key-Permᴰ k (sort_keys keys)) (cons refl (sort_keys-Permᴰ keys))

sort_keys-IsNewestFirst : (keys : List Bytes) → IsNewestFirst (sort_keys keys)
unfolding sort_keys
sort_keys-IsNewestFirst [] = tt
sort_keys-IsNewestFirst (k ∷ keys) =
    insert_key-IsNewestFirst k (sort_keys keys) (sort_keys-IsNewestFirst keys)

pub sort_keys-IsSort : IsSort sort_keys
sort_keys-IsSort = record { rearranges = sort_keys-Permᴰ; orders = sort_keys-IsNewestFirst }
