-- ===== src/StwServer/Store.antt =====
-- What the application server relies on in its libstore: the methods of src/libstore/libstore_api.go
-- as operations on a state, and the contents of the store that they read and change. An error is
-- `none` or `false`, since the server does not look at its text.
use simple_twitter.Common.{
  ◌≡◌, Bool, true, false, not, Option, none, some, List, [], ◌∷◌, if◌then◌else◌,
}
use simple_twitter.Common.Order.{Bytes, bytes_eqb, bytes_order}
use simple_twitter.Slices.{has, insert_sorted, remove}

pub record StoreOps (S : Type 0) : Type 0 where
  pub get : Bytes → S → Option Bytes × S
  pub put : Bytes → Bytes → S → Bool × S
  pub delete : Bytes → S → Bool × S
  pub get_list : Bytes → S → Option (List Bytes) × S
  pub append_to_list : Bytes → Bytes → S → Bool × S
  pub remove_from_list : Bytes → Bytes → S → Bool × S

-- The values of the keys.
abbrev pub Contents : Type 0
Contents = Bytes → Option (List Bytes)

abbrev pub value_of : Option (List Bytes) → Option Bytes
value_of none = none
value_of (some []) = some []
value_of (some (v ∷ vs)) = some v

abbrev pub list_of : Option (List Bytes) → List Bytes
list_of none = []
list_of (some vs) = vs

abbrev pub updated : Bytes → List Bytes → Contents → Contents
updated key vs m k = if bytes_eqb key k then some vs else m k

abbrev pub deleted : Bytes → Contents → Contents
deleted key m k = if bytes_eqb key k then none else m k

abbrev pub is_stored : Option (List Bytes) → Bool
is_stored none = false
is_stored (some vs) = true

abbrev pub appended : Bytes → Bytes → Contents → Contents
appended key v m k =
    if has v (list_of (m key)) then m k else updated key (insert_sorted v (list_of (m key))) m k

abbrev pub removed : Bytes → Bytes → Contents → Contents
removed key v m k =
    if has v (list_of (m key)) then updated key (remove v (list_of (m key))) m k else m k

-- The operations do to the contents what their names say, and report it.
pub record IsStore {S : Type 0} (ops : StoreOps S) (contents : S → Contents) : Type 0 where
  pub gets : (key : Bytes) (s : S) → (ops.get key s).0 ≡ value_of (contents s key)
  pub get_keeps : (key : Bytes) (s : S) (k : Bytes) → contents (ops.get key s).1 k ≡ contents s k
  pub put_works : (key v : Bytes) (s : S) → (ops.put key v s).0 ≡ true
  pub puts :
      (key v : Bytes) (s : S) (k : Bytes)
      → contents (ops.put key v s).1 k ≡ updated key (v ∷ []) (contents s) k
  pub delete_reports : (key : Bytes) (s : S) → (ops.delete key s).0 ≡ is_stored (contents s key)
  pub deletes :
      (key : Bytes) (s : S) (k : Bytes)
      → contents (ops.delete key s).1 k ≡ deleted key (contents s) k
  pub gets_list : (key : Bytes) (s : S) → (ops.get_list key s).0 ≡ contents s key
  pub get_list_keeps :
      (key : Bytes) (s : S) (k : Bytes) → contents (ops.get_list key s).1 k ≡ contents s k
  pub append_reports :
      (key v : Bytes) (s : S)
      → (ops.append_to_list key v s).0 ≡ not (has v (list_of (contents s key)))
  pub appends :
      (key v : Bytes) (s : S) (k : Bytes)
      → contents (ops.append_to_list key v s).1 k ≡ appended key v (contents s) k
  pub remove_reports :
      (key v : Bytes) (s : S) → (ops.remove_from_list key v s).0 ≡ has v (list_of (contents s key))
  pub removes :
      (key v : Bytes) (s : S) (k : Bytes)
      → contents (ops.remove_from_list key v s).1 k ≡ removed key v (contents s) k
