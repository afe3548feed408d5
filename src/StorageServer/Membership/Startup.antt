-- ===== src/StorageServer/Membership/Startup.antt =====
-- src/storageserver/storageserver_impl.go: a slave from its start to the forming of its ring.
use simple_twitter.Common.{
  ℕ, ◌+◌, ◌<◌, ◌≡◌, refl, Bool, true, false, Option, none, some, List, Outcome, done, Returns,
  Returns-bind, ◌>>=◌, arith,
}
use simple_twitter.Common.Order.{Bytes, nat_order}
use simple_twitter.Common.Map.{lookup}
use simple_twitter.Ring.{Node}
use simple_twitter.Startup.{
  dial_master, dial_attempts, await_servers, dial_master-reaches, await_servers-first,
}
use simple_twitter.StorageServer.Proto.{ServersReply, ok, not_ready}
use simple_twitter.StorageServer.State.{StorageServer}
use simple_twitter.StorageServer.Membership.{new_server, get_servers, join_ring}
use simple_twitter.StorageServer.Membership.Register.{AreMembers}
use simple_twitter.StorageServer.Membership.Agreement.{IsOrder, join_ring-agrees}

abbrev pub ready_nodes : Option ServersReply → Option (Option (List Node))
ready_nodes none = none
ready_nodes (some reply) = elim reply.status [ ok ↦ some (some reply.servers) | _ ↦ some none ]

unfoldable pub start_server :
    (ℕ → Bool) → (ℕ → Option ServersReply) → ℕ → StorageServer → Outcome (Option StorageServer)
start_server dials reply left ss = dial_master dials 0 dial_attempts >>= λ _.
    await_servers (λ i. ready_nodes (reply i)) 0 left >>= λ found. elim found [
      | none ↦ done none
      | some servers ↦ join_ring servers ss >>= λ ss'. done (some ss')
    ]

-- If an attempt to dial the master succeeds in time, the calls reach the master, and a reply comes,
-- after others with status NotReady, that a master with its members in order gives when all have
-- registered, then a slave starts: it has the ring of the master and the master's address for every
-- server, in whatever order Go lists the map, and keeps its own identifier.
pub start_server-agrees :
    (dials : ℕ → Bool) (reply : ℕ → Option ServersReply) (order : List Node → List Node)
    (master : StorageServer) (i j left : ℕ) (hostport : Bytes) (num_nodes node_id : ℕ)
    → dials i ≡ true
    → i < dial_attempts
    → ((k : ℕ) → k < j → (r : ServersReply) × (reply k ≡ some r) × (r.status ≡ not_ready))
    → reply j ≡ some (get_servers order master)
    → j < left
    → IsOrder order
    → AreMembers master.members
    → (get_servers order master).status ≡ ok
    → Returns
        (start_server dials reply left (new_server false hostport num_nodes node_id))
        (λ started.
          (slave : StorageServer) × (started ≡ some slave)
          × (slave.ring ≡ master.ring)
          × ((id : ℕ) → lookup id slave.nodes ≡ lookup id master.nodes)
          × (slave.node_id ≡ node_id))
unfolding start_server
start_server-agrees dials reply order master i j left hostport num_nodes node_id d di before e lt o
      m s =
    let same : (k : ℕ) → 0 + k ≡ k = λ k. omega arith in
    let reached = dial_master-reaches dials i 0 dial_attempts (rw (same i) d) di in
    let ready : ready_nodes (reply j) ≡ some (some (get_servers order master).servers) =
      rw e (rw s refl) in
    let waits : (k : ℕ) → k < j → ready_nodes (reply k) ≡ some none =
      λ k l. let (r, at, status) = before k l in rw at (rw status refl) in
    let found =
      await_servers-first (λ k. ready_nodes (reply k)) (get_servers order master).servers j 0 left
        (λ k l. rw (same k) (waits k l)) (rw (same j) ready) lt in
    rw reached (
      rw found (
        Returns-bind
          (join_ring (get_servers order master).servers
            (new_server false hostport num_nodes node_id))
          _ _ _ (join_ring-agrees order master hostport num_nodes node_id o m s)
          (λ slave a. (slave, refl, a.0, a.1, a.2))))
