-- ===== src/Tests/Startup.antt =====
-- A storage server and an application server that join a cluster.
use simple_twitter.Common.{
  ℕ, ◌≡◌, ◌≤◌, ◌<◌, ◌⊎◌, refl, Bool, false, Option, none, some, [], ◌∷◌, All, done, Returns, ltb,
  not, arith, if◌then◌else◌,
}
use simple_twitter.Common.Order.{nat_order}
use simple_twitter.Common.Map.{lookup}
use simple_twitter.Text.{codes}
use simple_twitter.Search.{binary_search_string}
use simple_twitter.Search.Ends.{binary_search_string-ends}
use simple_twitter.StorageServer.Proto.{ServersReply, not_ready}
use simple_twitter.StorageServer.State.{StorageServer}
use simple_twitter.StorageServer.Membership.{new_server, get_servers}
use simple_twitter.StorageServer.Membership.Startup.{start_server, start_server-agrees}
use simple_twitter.StwServer.Membership
use simple_twitter.StwServer.Membership.{PeersReply, StwServer}
use simple_twitter.StwServer.Join.{new_peer, start_peer, ready_peers, start_peer-lists_nobody}
use mathlib.Core.List.Permᴰ
use simple_twitter.Tests.Data.{fresh, amy, bob, zoe}
use simple_twitter.Tests.Ring.{fresh-AreMembers, fresh_ready}

-- Not in order.
binary_search_string-ends_example :
    (i : ℕ) × (binary_search_string (zoe ∷ amy ∷ bob ∷ []) amy ≡ done i) × (i ≤ 3)
binary_search_string-ends_example = binary_search_string-ends (zoe ∷ amy ∷ bob ∷ []) amy

-- The third attempt to dial succeeds.
abbrev third : ℕ → Bool
third k = not (ltb k 2)

abbrev early_reply : ServersReply
early_reply = record { status = not_ready; servers = [] }

-- The second registration is answered by a master that is ready.
abbrev replies : ℕ → Option ServersReply
replies k = if ltb k 1 then some early_reply else some (get_servers (λ nodes. nodes) fresh)

replies_before :
    (k : ℕ) → k < 1 → (r : ServersReply) × (replies k ≡ some r) × (r.status ≡ not_ready)
replies_before k lt = (early_reply, ground arith, refl)

start_server-agrees_example :
    Returns
      (start_server third replies 9 (new_server false (codes "localhost:9001") 1 5))
      (λ started.
        (slave : StorageServer) × (started ≡ some slave)
        × (slave.ring ≡ fresh.ring)
        × ((id : ℕ) → lookup id slave.nodes ≡ lookup id fresh.nodes)
        × (slave.node_id ≡ 5))
start_server-agrees_example =
    start_server-agrees third replies (λ nodes. nodes) fresh 2 1 9 (codes "localhost:9001") 1 5 refl
      (omega arith) replies_before refl (omega arith) (λ nodes. Permᴰ.refl nodes) fresh-AreMembers
      fresh_ready

abbrev waiting : PeersReply
waiting = record { status = Membership.not_ready; servers = [] }

abbrev ready : PeersReply
ready = record { status = Membership.ok; servers = amy ∷ bob ∷ zoe ∷ [] }

abbrev peer_replies : ℕ → Option PeersReply
peer_replies k = if ltb k 1 then some waiting else some ready

peer_replies_before : (k : ℕ) → k < 1 → ready_peers (peer_replies k) ≡ some none
peer_replies_before k lt = ground arith

start_peer-lists_nobody_example :
    Returns (start_peer third peer_replies 9 (new_peer bob 1)) (λ started.
      (ts : StwServer) × (started ≡ some ts)
      × (ts.num_nodes ≡ 3)
      × All (λ a. (a ≡ bob) ⊎ (a ≡ [])) ts.nodes)
start_peer-lists_nobody_example =
    start_peer-lists_nobody third peer_replies 2 1 9 bob 1 (amy ∷ bob ∷ zoe ∷ []) refl (omega arith)
      peer_replies_before refl (omega arith)
