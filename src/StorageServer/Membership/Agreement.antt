-- ===== src/StorageServer/Membership/Agreement.antt =====
-- All servers of a ring hold the same ring, and a key has one owner on it.
use mathlib.Core.List.{Permᴰ}
use mathlib.Core.List.Permᴰ.{nil, cons, swap, trans}
use simple_twitter.Common.{
  ℕ, ◌==◌, ◌≡◌, ◌≢◌, refl, true, false, List, [], arith, done, Returns, Returns-bind,
  Returns-result, ◌∙◌,
}
use simple_twitter.Common.Order.{Bytes, nat_order}
use simple_twitter.Common.Map.{lookup}
use simple_twitter.Search.Sorted.{IsSorted}
use simple_twitter.Slices.{has}
use simple_twitter.Slices.Sets.{sorted_ext}
use simple_twitter.Hash.{store_hash-returns}
use simple_twitter.Ring.{Node, empty_ring, add_nodes, search_hash_ring}
use simple_twitter.Ring.Build.{address, AreDistinct, Extends, add_nodes-Extends}
use simple_twitter.Ring.Owner.{search_hash_ring-IsSuccessor}
use simple_twitter.StorageServer.Proto.{ok}
use simple_twitter.StorageServer.State.{StorageServer, key_range_contains}
use simple_twitter.StorageServer.Membership.{list_nodes, new_server, get_servers, join_ring}
use simple_twitter.StorageServer.Membership.Register.{AreMembers, address-list_nodes}

-- `order` lists the entries of a map in some order.
abbrev pub IsOrder : (List Node → List Node) → Type 0
IsOrder order = (nodes : List Node) → Permᴰ (order nodes) nodes

abbrev Reordered : List Node → List Node → Type 0
Reordered l l' = AreDistinct l × ((id : ℕ) → address id l ≡ address id l')

-- A rearranged list of distinct servers has the same addresses, and its servers are distinct.
reordered : {l l' : List Node} → Permᴰ l l' → AreDistinct l' → Reordered l l'
reordered nil d = (tt, λ id. refl)
reordered (cons {a} {b} {l₁} {l₂} e p) d =
    let (d', same) = reordered p d.1 in
    ((ground (arith, e, same a.node_id, d.0), d'), λ id. ground (arith, e, same id))
reordered (swap {a} {b} {a'} {b'} {l} e e') d = (
  (ground (arith, e, e', d.0, d.1.0), (ground (arith, e, e', d.0, d.1.0), d.1.1)),
  λ id. ground (arith, e, e', d.0),
)
reordered (trans p q) d =
    let (d', same) = reordered q d in
    let (d'', same') = reordered p d' in (d'', λ id. same' id ∙ same id)

-- The servers of a reply with status OK.
ready_servers :
    (order : List Node → List Node) (ss : StorageServer)
    → (get_servers order ss).status ≡ ok
    → (get_servers order ss).servers ≡ order (list_nodes ss.nodes)
unfolding get_servers
ready_servers order ss h = ground arith

-- A slave that joins on the reply of the master, given when all servers have registered, has the ring
-- of the master and the master's address for every server, in whatever order Go lists the map.
pub join_ring-agrees :
    (order : List Node → List Node) (master : StorageServer) (hostport : Bytes)
    (num_nodes node_id : ℕ)
    → IsOrder order
    → AreMembers master.members
    → (get_servers order master).status ≡ ok
    → Returns
        (join_ring (get_servers order master).servers (new_server false hostport num_nodes node_id))
        (λ slave.
          (slave.ring ≡ master.ring)
          × ((id : ℕ) → lookup id slave.nodes ≡ lookup id master.nodes)
          × (slave.node_id ≡ node_id))
unfolding join_ring new_server has lookup
join_ring-agrees order master hostport num_nodes node_id shuffle m ready =
    let servers = order (list_nodes master.nodes) in
    let (distinct, same) = reordered (shuffle (list_nodes master.nodes)) m.distinct in
    rw (ready_servers order master ready) (
      Returns-bind (add_nodes empty_ring servers) _ (Extends empty_ring servers) _
        (add_nodes-Extends empty_ring servers tt distinct (λ id h. refl))
        λ r x. (
          sorted_ext r.ring master.ring x.sorted m.sorted
              (λ id. ground (arith, x.members id, m.same id, same id)),
          λ id. ground (arith, x.addresses id, same id, address-list_nodes id master.nodes),
          refl,
        ))

-- On a sorted ring with a server in it every key has one owner: one member of the ring says that
-- the key is its own, and every other server with that ring says that it is not.
pub key_range_contains-one_owner :
    (ring : List ℕ) (key : Bytes)
    → IsSorted ring
    → ring ≢ []
    → (owner : ℕ) × (has owner ring ≡ true)
      × ((ss : StorageServer)
          → ss.ring ≡ ring
          → key_range_contains ss key ≡ done (ss.node_id == owner))
unfolding key_range_contains
key_range_contains-one_owner ring key s h =
    let (hash, e) = store_hash-returns key in
    let (owner, found, successor) =
      Returns-result (search_hash_ring ring key) _
        (search_hash_ring-IsSuccessor ring key hash s h e) in
    (owner, successor.0, λ ss same. rw (same, found))
