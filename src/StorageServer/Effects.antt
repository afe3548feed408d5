-- ===== src/StorageServer/Effects.antt =====
-- What the requests on a key of the server's own promise: a specification over the set of values that
-- a key has, with no slices, searches or connections in it.
use simple_twitter.Common.{
  ◌≡◌, refl, Bool, true, false, not, ◌&&◌, Option, some, none, List, [], ◌∷◌, arith, if◌then◌else◌,
}
use simple_twitter.Common.Order.{Bytes, bytes_eqb, bytes_eqb_iff, bytes_order, nat_order}
use simple_twitter.Common.Map.{lookup, insert, delete, lookup-insert, lookup-delete}
use simple_twitter.Search.Sorted.{IsSorted}
use simple_twitter.Slices.{has, insert_sorted, remove}
use simple_twitter.Lease.Records.{Grants}
use simple_twitter.StorageServer.Proto.{Status, ok, key_not_found, item_not_found, item_exists}
use simple_twitter.StorageServer.State.{StorageServer, Env}
use simple_twitter.StorageServer.Leases.{or_empty}
use simple_twitter.StorageServer.Leases.Revoke.{due, connect_due, revoked}
use simple_twitter.StorageServer.Handlers.{Answer}
use simple_twitter.StorageServer.Invariant.{
  IsWellFormed, revoked-IsWellFormed, stored-IsWellFormed, deleted-IsWellFormed,
}

-- The status of the reply, what the key has afterwards, and whether its leases are revoked.
pub record Effect : Type 0 where
  pub status : Status
  pub stored : Option (List Bytes)
  pub revokes : Bool

abbrev pub put_effect : Bytes → Option (List Bytes) → Effect
put_effect val old = record { status = ok; stored = some (val ∷ []); revokes = true }

abbrev pub delete_effect : Option (List Bytes) → Effect
delete_effect none = record { status = key_not_found; stored = none; revokes = false }
delete_effect (some vs) = record { status = ok; stored = none; revokes = true }

abbrev pub is_empty : List Bytes → Bool
is_empty [] = true
is_empty (v ∷ vs) = false

-- A list that was empty is filled with its leases left in force.
abbrev pub append_effect : Bytes → Option (List Bytes) → Effect
append_effect val old =
    if has val (or_empty old)
    then record { status = item_exists; stored = old; revokes = false }
    else record {
      status = ok;
      stored = some (insert_sorted val (or_empty old));
      revokes = not (is_empty (or_empty old));
    }

abbrev pub remove_effect : Bytes → Option (List Bytes) → Effect
remove_effect val old =
    if has val (or_empty old)
    then record { status = ok; stored = some (remove val (or_empty old)); revokes = true }
    else record { status = item_not_found; stored = old; revokes = false }

-- The answer `a` has the effect `e` on `key`, and no other effect: connections are opened only to the
-- hosts that are told.
pub record Serves (env : Env) (ss : StorageServer) (key : Bytes) (grants : Grants) (e : Effect)
    (a : Answer Status) : Type 0 where
  pub well_formed : IsWellFormed a.server
  pub reply : a.reply ≡ e.status
  pub storage :
      (k : Bytes)
      → lookup k a.server.storage ≡ (if bytes_eqb key k then e.stored else lookup k ss.storage)
  pub tenants :
      (k : Bytes)
      → lookup k a.server.tenants
        ≡ (if e.revokes && bytes_eqb key k then none else lookup k ss.tenants)
  pub calls : a.calls ≡ (if e.revokes then due env key grants 0 else [])
  pub members : a.server.members ≡ ss.members
  pub node_id : a.server.node_id ≡ ss.node_id
  pub num_nodes : a.server.num_nodes ≡ ss.num_nodes
  pub conns : a.server.conns ≡ (if e.revokes then connect_due env grants 0 ss.conns else ss.conns)

module _ (env : Env) (ss : StorageServer) (w : IsWellFormed ss) (key : Bytes)
    (grants : Grants) where
  pub unchanged-Serves :
      (s : Status)
      → Serves env ss key grants
          (record { status = s; stored = lookup key ss.storage; revokes = false })
          (record { server = ss; reply = s; calls = [] })
  unchanged-Serves s = record {
    well_formed = w;
    reply = refl;
    storage = λ k. ground (arith, bytes_eqb_iff key k);
    tenants = λ k. refl;
    calls = refl;
    members = refl;
    node_id = refl;
    num_nodes = refl;
    conns = refl;
  }

  pub changed-Serves :
      (vs : List Bytes)
      → IsSorted vs
      → Serves env ss key grants
          (record { status = ok; stored = some vs; revokes = true })
          (record {
            server = record (revoked env key grants ss) { storage = insert key vs ss.storage };
            reply = ok;
            calls = due env key grants 0;
          })
  changed-Serves vs s = record {
    well_formed =
        stored-IsWellFormed key vs (revoked env key grants ss) s
          (revoked-IsWellFormed env key grants ss w);
    reply = refl;
    storage = λ k. lookup-insert key k vs ss.storage;
    tenants = λ k. lookup-delete key k ss.tenants;
    calls = refl;
    members = refl;
    node_id = refl;
    num_nodes = refl;
    conns = refl;
  }

  pub deleted-Serves :
      Serves env ss key grants
        (record { status = ok; stored = none; revokes = true })
        (record {
          server = record (revoked env key grants ss) { storage = delete key ss.storage };
          reply = ok;
          calls = due env key grants 0;
        })
  deleted-Serves = record {
    well_formed =
        deleted-IsWellFormed key (revoked env key grants ss)
          (revoked-IsWellFormed env key grants ss w);
    reply = refl;
    storage = λ k. lookup-delete key k ss.storage;
    tenants = λ k. lookup-delete key k ss.tenants;
    calls = refl;
    members = refl;
    node_id = refl;
    num_nodes = refl;
    conns = refl;
  }

  -- The first value of a key goes in with its leases left as they are.
  pub first-Serves :
      (val : Bytes)
      → Serves env ss key grants
          (record { status = ok; stored = some (val ∷ []); revokes = false })
          (record {
            server = record ss { storage = insert key (val ∷ []) ss.storage };
            reply = ok;
            calls = [];
          })
  first-Serves val = record {
    well_formed = stored-IsWellFormed key (val ∷ []) ss (tt, tt) w;
    reply = refl;
    storage = λ k. lookup-insert key k (val ∷ []) ss.storage;
    tenants = λ k. refl;
    calls = refl;
    members = refl;
    node_id = refl;
    num_nodes = refl;
    conns = refl;
  }
