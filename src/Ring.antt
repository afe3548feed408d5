-- ===== src/Ring.antt =====
-- src/util/common.go and src/libstore/libstore_impl.go: the ring of storage servers, and the server
-- that a key belongs to. The ring is the ascending slice of the servers' identifiers.
pub mod Owner
pub mod Build
use simple_twitter.Common.{
  ℕ, zero, ◌==◌, List, [], ◌∷◌, length, get_elem?, Outcome, done, index, ◌>>=◌, if◌then◌else◌,
}
use simple_twitter.Common.Order.{Bytes, nat_order}
use simple_twitter.Common.Map.{Map, insert}
use simple_twitter.Search.{binary_search_uint32}
use simple_twitter.Slices.{insert_at}
use simple_twitter.Hash.{store_hash}

unfoldable pub search_hash_ring : List ℕ → Bytes → Outcome ℕ
search_hash_ring ring key = do
  hash ← store_hash key
  i ← binary_search_uint32 ring hash
  index (get_elem? ring (if i == length ring then 0 else i))

-- `storagerpc.Node`
pub record Node : Type 0 where
  pub host_port : Bytes
  pub node_id : ℕ

-- The two fields in which a storage server and a libstore keep the ring.
pub record Ring : Type 0 where
  pub ring : List ℕ
  pub nodes : Map ℕ Bytes

abbrev pub empty_ring : Ring
empty_ring = record { ring = []; nodes = [] }

-- A server's identifier goes into the ring at its place, and its address into the map.
unfoldable pub add_node : Ring → Node → Outcome Ring
add_node r node = do
  i ← binary_search_uint32 r.ring node.node_id
  ring ← insert_at i node.node_id r.ring
  done (record { ring = ring; nodes = insert node.node_id node.host_port r.nodes })

-- `for _, node := range reply.Servers`
unfoldable pub add_nodes : Ring → List Node → Outcome Ring
unfolding add_node
add_nodes r [] = done r
add_nodes r (node ∷ servers) = do r' ← add_node r node; add_nodes r' servers
