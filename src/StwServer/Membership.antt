-- ===== src/StwServer/Membership.antt =====
-- src/stwserver/stwserver_impl.go, with src/rpc/stwrpc/proto.go: `RegisterServer` and `GetServers` on
-- the ordered list of the addresses of the application servers.
use simple_twitter.Common.{
  ℕ, ◌≡◌, refl, Bool, false, List, [], ◌||◌, length, get_elem?, leb, Outcome, done, index, ◌>>=◌,
  if◌then◌else◌, Returns, arith, Bool-cases, inl, inr, get_elem?-past_end, get_elem?-in_range,
}
use simple_twitter.Common.Order.{Bytes, bytes_eqb, bytes_eqb_iff, bytes_order}
use simple_twitter.Search.{binary_search_string}
use simple_twitter.Search.Sorted.{IsSorted, rank}
use simple_twitter.Search.Rank.{binary_search_string-rank}
use simple_twitter.Slices.{insert_at, has}
use simple_twitter.Slices.Sets.{
  is_at-rank, insert_at-rank, has-insert_sorted, insert_sorted-IsSorted,
}

-- `stwrpc.Status`; `unset` is the zero value.
pub data Status : Type 0 where
  unset ok no_such_user no_such_post no_such_target_user exists not_ready : Status

-- `RegisterReply` and `GetServersReply`; a `stwrpc.Node` is its address.
pub record PeersReply : Type 0 where
  pub status : Status
  pub servers : List Bytes

pub record StwServer : Type 0 where
  pub nodes : List Bytes
  pub num_nodes : ℕ

unfoldable pub list_peers : StwServer → PeersReply
list_peers ts =
    if leb ts.num_nodes (length ts.nodes)
    then record { status = ok; servers = ts.nodes }
    else record { status = not_ready; servers = [] }

-- `i >= len(ts.nodes) || ts.nodes[i]!=addr`, negated.
unfoldable pub is_peer : List Bytes → ℕ → Bytes → Outcome Bool
is_peer nodes i addr =
    if leb (length nodes) i
    then done false
    else (do at_i ← index (get_elem? nodes i); done (bytes_eqb at_i addr))

unfoldable pub register_peer : Bytes → StwServer → Outcome (StwServer × PeersReply)
unfolding is_peer
register_peer addr ts = do
  i ← binary_search_string ts.nodes addr
  known ← is_peer ts.nodes i addr
  nodes ← if known then done ts.nodes else insert_at i addr ts.nodes
  let ts' = record ts { nodes = nodes }
  done (ts', list_peers ts')

is_peer-has :
    (nodes : List Bytes) (addr : Bytes)
    → IsSorted nodes
    → is_peer nodes (rank addr nodes) addr ≡ done (has addr nodes)
unfolding is_peer
is_peer-has nodes addr s = elim (Bool-cases (leb (length nodes) (rank addr nodes))) [
  | inl past ↦
      ground (arith, past, is_at-rank addr nodes s, get_elem?-past_end nodes (rank addr nodes))
  | inr inside ↦
      let (x, e) = get_elem?-in_range nodes (rank addr nodes) (ground arith) in
      ground (arith, inside, e, is_at-rank addr nodes s)
]

-- For an ascending list of peers RegisterServer returns, and keeps the list ascending: the list has
-- the new address and the addresses that it had, the number of servers waited for stays, and the reply
-- lists all peers with status OK just if there are at least that many, and is NotReady otherwise.
pub register_peer-Registers :
    (addr : Bytes) (ts : StwServer)
    → IsSorted ts.nodes
    → Returns (register_peer addr ts) (λ (ts', reply).
      IsSorted ts'.nodes
      × ((other : Bytes) → has other ts'.nodes ≡ (bytes_eqb addr other || has other ts.nodes))
      × (ts'.num_nodes ≡ ts.num_nodes)
      × (reply ≡ (
          if leb ts.num_nodes (length ts'.nodes)
          then record { status = ok; servers = ts'.nodes }
          else record { status = not_ready; servers = [] })))
unfolding register_peer list_peers
register_peer-Registers addr ts s = rw (binary_search_string-rank ts.nodes addr s) (
    rw (is_peer-has ts.nodes addr s) (elim (Bool-cases (has addr ts.nodes)) [
      | inl old ↦ rw old (s, (λ other. ground (arith, bytes_eqb_iff addr other)), refl, refl)
      | inr new ↦ rw new (
          rw (insert_at-rank addr ts.nodes) (
            insert_sorted-IsSorted addr ts.nodes s new,
            (λ other. has-insert_sorted addr other ts.nodes),
            refl,
            refl,
          ))
    ]))
