-- ===== src/Ring/Build.antt =====
-- The ring that is built from a list of servers depends on the set of servers alone.
use simple_twitter.Common.{
  ℕ, ◌==◌, ◌≡◌, refl, Bool, true, false, ◌||◌, Option, none, some, List, [], ◌∷◌, arith, done,
  Returns, if◌then◌else◌, Returns-map, Returns-result,
}
use simple_twitter.Common.Order.{Bytes, nat_order}
use simple_twitter.Common.Map.{lookup, insert, lookup-insert}
use simple_twitter.Search.Sorted.{IsSorted}
use simple_twitter.Search.Rank.{binary_search_uint32-rank}
use simple_twitter.Slices.{has, insert_sorted}
use simple_twitter.Slices.Sets.{
  insert_at-rank, has-insert_sorted, insert_sorted-IsSorted, sorted_ext,
}
use simple_twitter.Ring.{Node, Ring, empty_ring, add_node, add_nodes}

-- The address of a server in a list of servers.
abbrev pub address : ℕ → List Node → Option Bytes
address id [] = none
address id (node ∷ servers) = if node.node_id == id then some node.host_port else address id servers

abbrev pub is_listed : ℕ → List Node → Bool
is_listed id servers = elim (address id servers) [ none ↦ false | some a ↦ true ]

abbrev pub AreDistinct : List Node → Type 0
AreDistinct [] = Unit
AreDistinct (node ∷ servers) = (address node.node_id servers ≡ none) × AreDistinct servers

abbrev pub or_else : Option Bytes → Option Bytes → Option Bytes
or_else none b = b
or_else (some a) b = some a

-- `r'` is the ring `r` with the servers added.
pub record Extends (r : Ring) (servers : List Node) (r' : Ring) : Type 0 where
  pub sorted : IsSorted r'.ring
  pub members : (id : ℕ) → has id r'.ring ≡ (has id r.ring || is_listed id servers)
  pub addresses : (id : ℕ) → lookup id r'.nodes ≡ or_else (address id servers) (lookup id r.nodes)

-- The ring after one server that is new to it.
abbrev pub with_node : Ring → Node → Ring
with_node r node = record {
  ring = insert_sorted node.node_id r.ring;
  nodes = insert node.node_id node.host_port r.nodes;
}

pub add_node-with_node :
    (r : Ring) (node : Node) → IsSorted r.ring → add_node r node ≡ done (with_node r node)
unfolding add_node
add_node-with_node r node s =
    rw (binary_search_uint32-rank r.ring node.node_id s, insert_at-rank node.node_id r.ring)

Extends-with_node :
    (r : Ring) (node : Node) (servers : List Node) (r' : Ring)
    → address node.node_id servers ≡ none
    → Extends (with_node r node) servers r'
    → Extends r (node ∷ servers) r'
Extends-with_node r node servers r' d h = record {
  sorted = h.sorted;
  members = λ id. ground (arith, h.members id, has-insert_sorted node.node_id id r.ring, d);
  addresses =
      λ id. ground (arith, h.addresses id, lookup-insert node.node_id id node.host_port r.nodes, d);
}

pub add_nodes-Extends :
    (r : Ring) (servers : List Node)
    → IsSorted r.ring
    → AreDistinct servers
    → ((id : ℕ) → is_listed id servers ≡ true → has id r.ring ≡ false)
    → Returns (add_nodes r servers) (Extends r servers)
unfolding add_nodes
add_nodes-Extends r [] s d new = record {
  sorted = s;
  members = λ id. ground arith;
  addresses = λ id. refl;
}
add_nodes-Extends r (node ∷ servers) s d new = rw (add_node-with_node r node s) (
    Returns-map (add_nodes (with_node r node) servers)
      (λ r' h. Extends-with_node r node servers r' d.0 h)
      (add_nodes-Extends (with_node r node) servers
        (insert_sorted-IsSorted node.node_id r.ring s (new node.node_id (ground arith))) d.1
        (λ id listed.
          ground (arith, new id, has-insert_sorted node.node_id id r.ring, d.0, listed))))

-- Two lists of distinct servers that give every identifier the same address, such as one list in two
-- orders, are turned into rings that have the same servers at the same places and the same addresses.
pub add_nodes-agree :
    (servers servers' : List Node)
    → AreDistinct servers
    → AreDistinct servers'
    → ((id : ℕ) → address id servers ≡ address id servers')
    → (r : Ring) × (r' : Ring) × (add_nodes empty_ring servers ≡ done r)
      × (add_nodes empty_ring servers' ≡ done r')
      × (r.ring ≡ r'.ring)
      × ((id : ℕ) → lookup id r.nodes ≡ lookup id r'.nodes)
unfolding has
add_nodes-agree servers servers' d d' same =
    let (r, e, x) =
      Returns-result (add_nodes empty_ring servers) (Extends empty_ring servers)
        (add_nodes-Extends empty_ring servers tt d (λ id h. refl)) in
    let (r', e', x') =
      Returns-result (add_nodes empty_ring servers') (Extends empty_ring servers')
        (add_nodes-Extends empty_ring servers' tt d' (λ id h. refl)) in
    (
      r,
      r',
      e,
      e',
      sorted_ext r.ring r'.ring x.sorted x'.sorted
          (λ id. ground (arith, x.members id, x'.members id, same id)),
      λ id. ground (arith, x.addresses id, x'.addresses id, same id),
    )
