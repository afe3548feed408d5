-- ===== src/StorageServer/State.antt =====
-- src/storageserver/storageserver_impl.go: the state of a storage server, what it meets outside
-- while a handler runs, and the test whether a key is its own.
use simple_twitter.Common.{ℕ, ◌==◌, Bool, List, Outcome, done, ◌>>=◌}
use simple_twitter.Common.Int.{ℤ}
use simple_twitter.Common.Order.{Bytes}
use simple_twitter.Common.Map.{Map}
use simple_twitter.Ring.{Ring, search_hash_ring}

-- A connection, known by the address that was dialled for it.
pub record Client : Type 0 where
  pub address : Bytes

-- `ring` and `nodes` are the fields of `members`.
pub record StorageServer : Type 0 where
  pub node_id : ℕ
  pub members : Ring
  pub open members use *
  pub conns : Map Bytes Client
  pub num_nodes : ℕ
  pub storage : Map Bytes (List Bytes)
  pub tenants : Map Bytes (List Bytes)

-- What one call of a handler sees of the outside: the `k`-th reading of the clock, in seconds, and
-- whether dialling an address at that time succeeds.
pub record Env : Type 0 where
  pub clock : ℕ → ℤ
  pub dials : ℕ → Bytes → Bool

-- A call of `LeaseCallbacks.RevokeLease` that a handler has sent.
pub record Revocation : Type 0 where
  pub target : Bytes
  pub key : Bytes

unfoldable pub key_range_contains : StorageServer → Bytes → Outcome Bool
key_range_contains ss key = do id ← search_hash_ring ss.ring key; done (ss.node_id == id)
