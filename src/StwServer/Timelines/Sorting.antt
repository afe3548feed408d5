-- ===== src/StwServer/Timelines/Sorting.antt =====
-- What the timelines rely on in `sort.Sort` of Go's library: it rearranges the keys, and afterwards no
-- key is newer than the one in front of it.
use mathlib.Core.List.{Permᴰ}
use mathlib.Core.List.Permᴰ.{nil, cons, swap, trans}
use simple_twitter.Common.{◌≡◌, refl, false, List, [], ◌∷◌}
use simple_twitter.Common.Order.{Bytes}
use simple_twitter.StwServer.Timelines.{is_newer}

abbrev pub IsNewestFirst : List Bytes → Type 0
IsNewestFirst [] = Unit
IsNewestFirst (k ∷ []) = Unit
IsNewestFirst (k ∷ j ∷ keys) = (is_newer j k ≡ false) × IsNewestFirst (j ∷ keys)

pub record IsSort (sort : List Bytes → List Bytes) : Type 0 where
  pub rearranges : (keys : List Bytes) → Permᴰ (sort keys) keys
  pub orders : (keys : List Bytes) → IsNewestFirst (sort keys)

-- Only the empty list is a rearrangement of the empty list.
pub Permᴰ-nil : {xs ys : List Bytes} → Permᴰ xs ys → ys ≡ [] → xs ≡ []
Permᴰ-nil nil e = refl
Permᴰ-nil (cons e p) h = cc
Permᴰ-nil (swap e e') h = cc
Permᴰ-nil (trans p q) h = Permᴰ-nil p (Permᴰ-nil q h)

pub sort-nil : (sort : List Bytes → List Bytes) → IsSort sort → sort [] ≡ []
sort-nil sort s = Permᴰ-nil (s.rearranges []) refl
