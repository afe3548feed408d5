-- ===== src/StorageServer/Membership.antt =====
-- src/storageserver/storageserver_impl.go: how the ring is formed. `RegisterServer` and
-- `GetServers` are the master's side of it; a slave adds the servers of the reply to its own ring.
pub mod Register
pub mod Agreement
pub mod Startup
use simple_twitter.Common.{
  ℕ, Bool, true, false, Option, none, some, List, [], ◌∷◌, length, leb, Outcome, done, ◌>>=◌,
  if◌then◌else◌,
}
use simple_twitter.Common.Order.{Bytes, nat_order}
use simple_twitter.Common.Map.{Map, lookup, insert}
use simple_twitter.Ring.{Node, Ring, empty_ring, add_node, add_nodes}
use simple_twitter.StorageServer.Proto.{ServersReply, ok, not_ready}
use simple_twitter.StorageServer.State.{StorageServer}

abbrev pub list_nodes : Map ℕ Bytes → List Node
list_nodes [] = []
list_nodes ((id, host) ∷ nodes) = record { host_port = host; node_id = id } ∷ list_nodes nodes

-- The server that `NewStorageServer` makes: a master is in its ring from the start.
unfoldable pub new_server : Bool → Bytes → ℕ → ℕ → StorageServer
new_server is_master hostport num_nodes node_id = record {
  node_id = node_id;
  members =
      if is_master
      then record { ring = node_id ∷ []; nodes = insert node_id hostport [] }
      else empty_ring;
  conns = [];
  num_nodes = num_nodes;
  storage = [];
  tenants = [];
}

-- Go does not say in which order it ranges over a map: `order` is the order that it takes.
module _ (order : List Node → List Node) where
  unfoldable pub get_servers : StorageServer → ServersReply
  get_servers ss =
      if leb ss.num_nodes (length ss.ring)
      then record { status = ok; servers = order (list_nodes ss.nodes) }
      else record { status = not_ready; servers = [] }

  unfoldable pub register_server : Node → StorageServer → Outcome (StorageServer × ServersReply)
  unfolding get_servers
  register_server info ss = elim (lookup info.node_id ss.nodes) [
    | some host ↦ done (ss, get_servers ss)
    | none ↦ add_node ss.members info >>= λ members.
        let ss' = record ss { members = members } in done (ss', get_servers ss')
  ]

-- A slave, on a reply with status OK.
unfoldable pub join_ring : List Node → StorageServer → Outcome StorageServer
join_ring servers ss = do
  members ← add_nodes ss.members servers
  done (record ss { members = members; num_nodes = length servers })
