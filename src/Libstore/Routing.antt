-- ===== src/Libstore/Routing.antt =====
-- src/libstore/libstore_impl.go: `getStorageServer` sends the requests of a key to its owner.
use simple_twitter.Common.{
  ℕ, ◌==◌, ◌≡◌, ◌≢◌, refl, true, some, [], Option-cases, inl, inr, arith, done, Returns,
  Returns-result,
}
use simple_twitter.Common.Order.{Bytes, nat_order}
use simple_twitter.Common.Map.{lookup, insert, lookup-insert}
use simple_twitter.Search.Sorted.{IsSorted}
use simple_twitter.Slices.{has}
use simple_twitter.Hash.{store_hash-returns}
use simple_twitter.Ring.{search_hash_ring}
use simple_twitter.Ring.Owner.{search_hash_ring-IsSuccessor}
use simple_twitter.StorageServer.State.{Client, StorageServer, key_range_contains}
use simple_twitter.Libstore.State.{Libstore, LibEnv}
use simple_twitter.Libstore.Requests.{search_ring, get_storage_server}

-- What a libstore needs to find the owners of its keys, whichever the servers are: the ring is
-- ascending and not empty, every server on it has an address, and every connection is one
-- to the address of its server.
pub record IsRouted (ls : Libstore) : Type 0 where
  pub sorted : IsSorted ls.ring
  pub used : ls.ring ≢ []
  pub named : (id : ℕ) → has id ls.ring ≡ true → (a : Bytes) × (lookup id ls.nodes ≡ some a)
  pub dialled :
      (id : ℕ) (cli : Client)
      → lookup id ls.conns ≡ some cli
      → lookup id ls.nodes ≡ some cli.address

-- The server with this identifier, and no other server with the ring, takes the key for its own.
abbrev pub Owns : Libstore → Bytes → ℕ → Type 0
Owns ls key id =
    (ss : StorageServer) → ss.ring ≡ ls.ring → key_range_contains ss key ≡ done (ss.node_id == id)

abbrev pub Reaches : Libstore → Bytes → Client × Libstore → Type 0
Reaches ls key (cli, ls') =
    IsRouted ls'
    × (ls' ≡ record ls { conns = ls'.conns })
    × ((id : ℕ) × (lookup id ls.nodes ≡ some cli.address) × Owns ls key id)

connected-IsRouted :
    (id : ℕ) (address : Bytes) (ls : Libstore)
    → IsRouted ls
    → lookup id ls.nodes ≡ some address
    → IsRouted (record ls { conns = insert id (record { address = address }) ls.conns })
connected-IsRouted id address ls r e = record {
  sorted = r.sorted;
  used = r.used;
  named = r.named;
  dialled = λ j cli h. ground (
    arith,
    lookup-insert {V = Client} id j (record { address = address }) ls.conns,
    r.dialled j cli,
  );
}

pub search_ring-found :
    (ls : Libstore) (key : Bytes)
    → IsRouted ls
    → (id : ℕ) × (search_ring ls.ring key ≡ done id) × (has id ls.ring ≡ true) × Owns ls key id
unfolding search_ring search_hash_ring key_range_contains
search_ring-found ls key r =
    let (hash, e) = store_hash-returns key in
    let (id, found, successor) =
      Returns-result (search_hash_ring ls.ring key) _
        (search_hash_ring-IsSuccessor ls.ring key hash r.sorted r.used e) in
    (id, found, successor.0, λ ss same. rw (same, found))

-- If the ring of a libstore is ascending and not empty, every server on it has an address, every
-- connection is one to the address of its server, and dialling succeeds, then `getStorageServer`
-- returns a connection to the address of the one server that takes the key for its own, among all
-- servers with the same ring, and changes nothing but the table of connections.
pub get_storage_server-Reaches :
    (env : LibEnv) (key : Bytes) (ls : Libstore)
    → IsRouted ls
    → ((a : Bytes) → env.dials a ≡ true)
    → Returns (get_storage_server env key ls) (Reaches ls key)
unfolding get_storage_server
get_storage_server-Reaches env key ls r answers =
    let (id, found, member, owns) = search_ring-found ls key r in
    let (address, e) = r.named id member in
    rw found (elim (Option-cases (lookup id ls.conns)) [
      | inl missing ↦
          rw (missing, Returns)
            (rw e
              (rw (answers address) (connected-IsRouted id address ls r e, refl, (id, e, owns))))
      | inr (cli, there) ↦ rw (there, Returns) (r, refl, (id, r.dialled id cli there, owns))
    ])
