-- ===== src/StwServer/Join.antt =====
-- src/stwserver/stwserver_impl.go: `NewStwServer`, as far as it forms the cluster.
use simple_twitter.Common.{
  ℕ, zero, suc, ◌+◌, ◌<◌, ◌≤◌, ◌≡◌, ◌⊎◌, inl, inr, refl, Bool, true, Option, none, some, List, [],
  ◌∷◌, length, All, Outcome, done, panic, ◌>>=◌, Returns, Returns-bind, arith,
}
use simple_twitter.Common.Order.{Bytes, bytes_order}
use simple_twitter.Search.{binary_search_string}
use simple_twitter.Search.Ends.{binary_search_string-ends}
use simple_twitter.Startup.{
  dial_master, dial_attempts, await_servers, dial_master-reaches, await_servers-first,
}
use simple_twitter.StwServer.Membership.{ok, PeersReply, StwServer}

unfoldable pub new_peer : Bytes → ℕ → StwServer
new_peer host_port num_nodes = record { nodes = host_port ∷ []; num_nodes = num_nodes }

-- `temp := append(nodes, ""); copy(temp[i+1:], nodes[i:])`: the element at `i` moves up, and is
-- left where it was too.
unfoldable pub make_room : ℕ → List Bytes → Outcome (List Bytes)
make_room zero [] = done ([] ∷ [])
make_room zero (x ∷ xs) = done (x ∷ x ∷ xs)
make_room (suc i) [] = panic
make_room (suc i) (x ∷ xs) = make_room i xs >>= λ rest. done (x ∷ rest)

-- The loop over the servers of the reply.
unfoldable pub join_peers : List Bytes → List Bytes → Outcome (List Bytes)
unfolding make_room
join_peers [] nodes = done nodes
join_peers (addr ∷ servers) nodes = binary_search_string nodes addr >>= λ i.
    make_room i nodes >>= λ nodes'. join_peers servers nodes'

unfoldable pub join_cluster : List Bytes → StwServer → Outcome StwServer
unfolding join_peers
join_cluster servers ts = do
  nodes ← join_peers servers ts.nodes
  done (record { nodes = nodes; num_nodes = length servers })

abbrev pub ready_peers : Option PeersReply → Option (Option (List Bytes))
ready_peers none = none
ready_peers (some reply) = elim reply.status [ ok ↦ some (some reply.servers) | _ ↦ some none ]

-- What a slave does after it has begun to listen.
unfoldable pub start_peer :
    (ℕ → Bool) → (ℕ → Option PeersReply) → ℕ → StwServer → Outcome (Option StwServer)
unfolding join_cluster
start_peer dials reply left ts = dial_master dials 0 dial_attempts >>= λ _.
    await_servers (λ i. ready_peers (reply i)) 0 left >>= λ found. elim found [
      | none ↦ done none
      | some servers ↦ join_cluster servers ts >>= λ ts'. done (some ts')
    ]

make_room-old :
    (P : Bytes → Type 0) (i : ℕ) (nodes : List Bytes)
    → P []
    → i ≤ length nodes
    → All P nodes
    → Returns (make_room i nodes) (λ nodes'. All P nodes' × (length nodes' ≡ suc (length nodes)))
unfolding make_room
make_room-old P zero [] e h a = ((e, tt), refl)
make_room-old P zero (x ∷ xs) e h a = ((a.0, (a.0, a.1)), refl)
make_room-old P (suc i) [] e h a = absurd (omega arith)
make_room-old P (suc i) (x ∷ xs) e h a =
    Returns-bind (make_room i xs) _ _ _ (make_room-old P i xs e (omega arith) a.1)
      (λ rest r. ((a.0, r.0), omega (arith, r.1)))

join_peers-old :
    (P : Bytes → Type 0) (servers nodes : List Bytes)
    → P []
    → All P nodes
    → Returns (join_peers servers nodes) (All P)
unfolding join_peers
join_peers-old P [] nodes e a = a
join_peers-old P (addr ∷ servers) nodes e a =
    let (i, found, le) = binary_search_string-ends nodes addr in
    rw found (
      Returns-bind (make_room i nodes) _ _ _ (make_room-old P i nodes e le a)
        (λ nodes' r. join_peers-old P servers nodes' e r.0))

join_cluster-old :
    (host_port : Bytes) (num_nodes : ℕ) (servers : List Bytes)
    → Returns
        (join_cluster servers (new_peer host_port num_nodes))
        (λ ts. (ts.num_nodes ≡ length servers) × All (λ a. (a ≡ host_port) ⊎ (a ≡ [])) ts.nodes)
unfolding join_cluster new_peer
join_cluster-old host_port num_nodes servers =
    Returns-bind (join_peers servers (host_port ∷ [])) _ _ _
      (join_peers-old (λ a. (a ≡ host_port) ⊎ (a ≡ [])) servers (host_port ∷ []) (inr refl)
        (inl refl, tt))
      (λ nodes all. (refl, all))

-- If an attempt to dial the master succeeds in time, and a reply comes with status OK after replies
-- with another status, then a slave starts, counts the servers of the reply, and lists nobody: every
-- address in its list is its own or the empty string, whatever servers the reply names.
pub start_peer-lists_nobody :
    (dials : ℕ → Bool) (reply : ℕ → Option PeersReply) (i j left : ℕ) (host_port : Bytes)
    (num_nodes : ℕ) (servers : List Bytes)
    → dials i ≡ true
    → i < dial_attempts
    → ((k : ℕ) → k < j → ready_peers (reply k) ≡ some none)
    → reply j ≡ some (record { status = ok; servers = servers })
    → j < left
    → Returns (start_peer dials reply left (new_peer host_port num_nodes)) (λ started.
      (ts : StwServer) × (started ≡ some ts)
      × (ts.num_nodes ≡ length servers)
      × All (λ a. (a ≡ host_port) ⊎ (a ≡ [])) ts.nodes)
unfolding start_peer
start_peer-lists_nobody dials reply i j left host_port num_nodes servers d di before e lt =
    let same : (k : ℕ) → 0 + k ≡ k = λ k. omega arith in
    let reached = dial_master-reaches dials i 0 dial_attempts (rw (same i) d) di in
    let found =
      await_servers-first (λ k. ready_peers (reply k)) servers j 0 left
        (λ k l. rw (same k) (before k l)) (rw (same j) (rw e refl)) lt in
    rw reached (
      rw found (
        Returns-bind (join_cluster servers (new_peer host_port num_nodes)) _ _ _
          (join_cluster-old host_port num_nodes servers) (λ ts r. (ts, refl, r.0, r.1))))
