-- ===== src/StorageServer/Membership/Register.antt =====
-- What the master keeps while the servers register.
use simple_twitter.Common.{
  ℕ, ◌==◌, ◌≡◌, refl, true, false, ◌||◌, none, some, List, [], ◌∷◌, arith, if◌then◌else◌, Returns,
  Returns-done, Option-cases, inl, inr,
}
use simple_twitter.Common.Order.{Bytes, nat_order}
use simple_twitter.Common.Map.{Map, lookup, insert, lookup-insert}
use simple_twitter.Search.Sorted.{IsSorted}
use simple_twitter.Slices.{has}
use simple_twitter.Slices.Sets.{has-insert_sorted, insert_sorted-IsSorted}
use simple_twitter.Ring.{Node, Ring}
use simple_twitter.Ring.Build.{address, is_listed, AreDistinct, with_node, add_node-with_node}
use simple_twitter.StorageServer.Proto.{ServersReply}
use simple_twitter.StorageServer.State.{StorageServer}
use simple_twitter.StorageServer.Membership.{list_nodes, new_server, get_servers, register_server}

-- The ring and the map of addresses are about the same servers.
pub record AreMembers (r : Ring) : Type 0 where
  pub sorted : IsSorted r.ring
  pub distinct : AreDistinct (list_nodes r.nodes)
  pub same : (id : ℕ) → has id r.ring ≡ is_listed id (list_nodes r.nodes)

pub address-list_nodes :
    (id : ℕ) (nodes : Map ℕ Bytes) → address id (list_nodes nodes) ≡ lookup id nodes
unfolding lookup
address-list_nodes id [] = refl
address-list_nodes id ((j, host) ∷ nodes) = ground (arith, address-list_nodes id nodes)

insert-AreDistinct :
    (id : ℕ) (host : Bytes) (nodes : Map ℕ Bytes)
    → AreDistinct (list_nodes nodes)
    → AreDistinct (list_nodes (insert id host nodes))
unfolding insert
insert-AreDistinct id host [] d = (refl, tt)
insert-AreDistinct id host ((j, h) ∷ nodes) d = ground (
  arith,
  insert-AreDistinct id host nodes d.1,
  address-list_nodes j (insert id host nodes),
  address-list_nodes j nodes,
  lookup-insert id j host nodes,
)

with_node-AreMembers :
    (r : Ring) (node : Node)
    → lookup node.node_id r.nodes ≡ none
    → AreMembers r
    → AreMembers (with_node r node)
with_node-AreMembers r node new m =
    let absent : has node.node_id r.ring ≡ false =
      ground (arith, m.same node.node_id, address-list_nodes node.node_id r.nodes) in
    record {
      sorted = insert_sorted-IsSorted node.node_id r.ring m.sorted absent;
      distinct = insert-AreDistinct node.node_id node.host_port r.nodes m.distinct;
      same = λ id. ground (
        arith,
        m.same id,
        has-insert_sorted node.node_id id r.ring,
        address-list_nodes id r.nodes,
        address-list_nodes id (insert node.node_id node.host_port r.nodes),
        lookup-insert node.node_id id node.host_port r.nodes,
      );
    }

-- A master starts with itself as the one member.
pub new_server-AreMembers :
    (hostport : Bytes) (num_nodes node_id : ℕ)
    → AreMembers (new_server true hostport num_nodes node_id).members
unfolding new_server has insert
new_server-AreMembers hostport num_nodes node_id = record {
  sorted = (tt, tt);
  distinct = (refl, tt);
  same = λ id. ground arith;
}

-- The effect of a registration: `node` is a member, unless its identifier was taken before.
pub record Registers (order : List Node → List Node) (ss : StorageServer) (node : Node)
    (result : StorageServer × ServersReply) : Type 0 where
  pub members : AreMembers result.0.members
  pub ring : (id : ℕ) → has id result.0.ring ≡ (node.node_id == id || has id ss.ring)
  pub addresses :
      (id : ℕ)
      → lookup id result.0.nodes ≡ elim (lookup id ss.nodes) [
        | some host ↦ some host
        | none ↦ if node.node_id == id then some node.host_port else none
      ]
  pub storage : result.0.storage ≡ ss.storage
  pub num_nodes : result.0.num_nodes ≡ ss.num_nodes
  pub reply : result.1 ≡ get_servers order result.0

-- For a master whose members are in order, RegisterServer returns and keeps them in order: the ring
-- gains the identifier, an identifier that is known keeps its first address, the store and the
-- number of servers waited for stay, and the reply is that of GetServers on the new state.
pub register_server-Registers :
    (order : List Node → List Node) (ss : StorageServer) (node : Node)
    → AreMembers ss.members
    → Returns (register_server order node ss) (Registers order ss node)
unfolding register_server
register_server-Registers order ss node m = elim (Option-cases (lookup node.node_id ss.nodes)) [
  | inl new ↦
      Returns-done _ (Registers order ss node)
        (
          record ss { members = with_node ss.members node },
          get_servers order (record ss { members = with_node ss.members node }),
        )
        (ground (arith, new, add_node-with_node ss.members node m.sorted))
        (record {
          members = with_node-AreMembers ss.members node new m;
          ring = λ id. has-insert_sorted node.node_id id ss.ring;
          addresses =
              λ id. ground (arith, lookup-insert node.node_id id node.host_port ss.nodes, new);
          storage = refl;
          num_nodes = refl;
          reply = refl;
        })
  | inr (host, old) ↦
      Returns-done _ (Registers order ss node) (ss, get_servers order ss) (ground (arith, old))
        (record {
          members = m;
          ring = λ id. ground (arith, m.same id, old, address-list_nodes id ss.nodes);
          addresses = λ id. ground (arith, old);
          storage = refl;
          num_nodes = refl;
          reply = refl;
        })
]
