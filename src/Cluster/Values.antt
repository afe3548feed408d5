-- ===== src/Cluster/Values.antt =====
-- What the replies of the storage servers stand for, beside what the application server expects.
use simple_twitter.Common.{
  ◌≡◌, refl, ap, Bool, true, false, not, Option, none, some, List, [], ◌∷◌, Bool-cases,
  Option-cases, inl, inr, if◌then◌else◌, arith,
}
use simple_twitter.Common.Order.{Bytes, bytes_eqb, bytes_eqb_iff, bytes_order}
use simple_twitter.Slices.{has}
use simple_twitter.StorageServer.Proto.{GetArgs}
use simple_twitter.StorageServer.Leases.{or_empty}
use simple_twitter.StorageServer.Effects.{delete_effect, append_effect, remove_effect}
use simple_twitter.StorageServer.Reads.{get_reply, get_list_reply}
use simple_twitter.Libstore.Writes.{delete_result, append_result, remove_result}
use simple_twitter.Libstore.Answers.{list_result}
use simple_twitter.Libstore.Values.{value_result}
use simple_twitter.StwServer.Store.{
  Contents, value_of, list_of, is_stored, deleted, appended, removed,
}
use simple_twitter.Cluster.{value_or_error}

abbrev pub is_ok : Option (Unit {0}) → Bool
is_ok none = false
is_ok (some u) = true

pub get_value :
    (key : Bytes) (args : GetArgs) (old : Option (List Bytes))
    → value_or_error (value_result key (some (get_reply args old))) ≡ value_of old
get_value key args none = refl
get_value key args (some []) = refl
get_value key args (some (v ∷ vs)) = refl

pub list_value :
    (key : Bytes) (args : GetArgs) (old : Option (List Bytes))
    → value_or_error (list_result key (some (get_list_reply args old))) ≡ old
list_value key args none = refl
list_value key args (some vs) = refl

pub deleted_value :
    (key : Bytes) (old : Option (List Bytes))
    → is_ok (value_or_error (delete_result key (some (delete_effect old).status))) ≡ is_stored old
unfolding delete_result
deleted_value key none = refl
deleted_value key (some vs) = refl

list_of-or_empty : (old : Option (List Bytes)) → list_of old ≡ or_empty old
list_of-or_empty none = refl
list_of-or_empty (some vs) = refl

pub appended_value :
    (key v : Bytes) (old : Option (List Bytes))
    → is_ok (value_or_error (append_result key v (some (append_effect v old).status)))
      ≡ not (has v (list_of old))
unfolding append_result
appended_value key v old = rw (list_of-or_empty old) (elim (Bool-cases (has v (or_empty old))) [
  | inl there ↦ rw there refl
  | inr free ↦ rw free refl
])

pub removed_value :
    (key v : Bytes) (old : Option (List Bytes))
    → is_ok (value_or_error (remove_result key v (some (remove_effect v old).status)))
      ≡ has v (list_of old)
unfolding remove_result
removed_value key v old = rw (list_of-or_empty old) (elim (Bool-cases (has v (or_empty old))) [
  | inl there ↦ rw there refl
  | inr free ↦ rw free refl
])

pub appended_contents :
    (key v : Bytes) (m : Contents) (k : Bytes)
    → (if bytes_eqb key k then (append_effect v (m key)).stored else m k) ≡ appended key v m k
appended_contents key v m k = ground (
  arith,
  list_of-or_empty (m key),
  bytes_eqb_iff key k,
  ap m,
  Bool-cases (has v (or_empty (m key))),
)

pub removed_contents :
    (key v : Bytes) (m : Contents) (k : Bytes)
    → (if bytes_eqb key k then (remove_effect v (m key)).stored else m k) ≡ removed key v m k
removed_contents key v m k = ground (
  arith,
  list_of-or_empty (m key),
  bytes_eqb_iff key k,
  ap m,
  Bool-cases (has v (or_empty (m key))),
)

pub deleted_contents :
    (key : Bytes) (m : Contents) (k : Bytes)
    → (if bytes_eqb key k then (delete_effect (m key)).stored else m k) ≡ deleted key m k
deleted_contents key m k = elim (Option-cases (m key)) [
  | inl missing ↦ rw missing refl
  | inr (vs, there) ↦ rw there refl
]
