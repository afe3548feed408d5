-- ===== src/Libstore/State.antt =====
-- src/libstore/libstore_impl.go: the state of a libstore. A record is reached by a pointer, which a
-- request keeps while it waits for the storage server: records stand on a heap, and the map
-- `records` holds their places.
use simple_twitter.Common.{ℕ, zero, suc, List, [], ◌∷◌, ◌++◌, Bool}
use simple_twitter.Common.Int.{ℤ}
use simple_twitter.Common.Order.{Bytes, nat_order}
use simple_twitter.Common.Map.{Map}
use simple_twitter.Ring.{Ring}
use simple_twitter.StorageServer.State.{Client}

pub data LeaseMode : Type 0 where
  never normal always : LeaseMode

-- The embedded `storagerpc.Lease` and the times of the last queries.
pub record Record : Type 0 where
  pub granted : Bool
  pub valid_seconds : ℕ
  pub history : List ℤ

pub record Libstore : Type 0 where
  pub host_port : Bytes
  pub mode : LeaseMode
  pub members : Ring
  pub open members use *
  pub conns : Map ℕ Client
  pub cache : Map Bytes (List Bytes)
  pub records : Map Bytes ℕ
  pub heap : List Record

-- The errors that the methods return.
pub data LibError : Type 0 where
  call_failed should_not_be_reached unknown_reply not_ready_in_time : LibError
  key_not_found : Bytes → LibError
  item_not_found item_exists : Bytes → Bytes → LibError

pub data Result (A : Type 0) : Type 0 where
  ok : A → Result A
  err : LibError → Result A

-- `&record{…}`: a new place at the end of the heap.
abbrev pub allocate : Record → Libstore → Libstore
allocate r ls = record ls { heap = ls.heap ++ r ∷ [] }

abbrev pub set {ℓ} : {A : Type ℓ} → List A → ℕ → A → List A
set [] i v = []
set (x ∷ xs) zero v = v ∷ xs
set (x ∷ xs) (suc i) v = x ∷ set xs i v

-- A write through the pointer.
abbrev pub write : ℕ → Record → Libstore → Libstore
write ref r ls = record ls { heap = set ls.heap ref r }

-- What a method meets outside: the readings of the clock in seconds, and whether dialling succeeds.
pub record LibEnv : Type 0 where
  pub clock : ℕ → ℤ
  pub dials : Bytes → Bool
