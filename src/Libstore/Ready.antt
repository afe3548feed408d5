-- ===== src/Libstore/Ready.antt =====
-- src/libstore/libstore_impl.go: what `NewLibstore` makes of the master's replies.
use simple_twitter.Common.{
  ℕ, zero, suc, ◌+◌, ◌<◌, ◌≡◌, ◌≢◌, refl, arith, ◌∷◌, Returns-result, Bool-cases, Option-cases, inl,
  inr, ◌∙◌, ◌||◌, true, false, not, Option, some, none, List, [], done, ◌&&◌,
}
use simple_twitter.Common.Order.{Bytes, bytes_eqb}
use simple_twitter.Common.Order.{nat_order}
use simple_twitter.Common.Map.{lookup}
use simple_twitter.Slices.{has}
use simple_twitter.Ring.{Node, Ring, empty_ring, add_nodes}
use simple_twitter.StorageServer.Proto.{ServersReply, ok}
use simple_twitter.Libstore.State.{
  LeaseMode, never, normal, always, Libstore, Result, call_failed, not_ready_in_time,
}
use simple_twitter.Ring.Build.{AreDistinct, address, is_listed, or_else, Extends, add_nodes-Extends}
use simple_twitter.Libstore.Coherence.{IsCoherent}
use simple_twitter.Libstore.Routing.{IsRouted}
use simple_twitter.Libstore.State
use simple_twitter.Libstore.Setup.{wait_ready, attempts, may_lease, new_libstore}

-- The first reply with status OK among the attempts is the one that counts.
wait_ready-first :
    (reply : ℕ → Option ServersReply) (i re left : ℕ) (r : ServersReply)
    → ((k : ℕ)
        → k < i
        → (earlier : ServersReply) × (reply (re + k) ≡ some earlier) × (earlier.status ≢ ok))
    → reply (re + i) ≡ some r
    → r.status ≡ ok
    → i < left
    → wait_ready reply re left ≡ done (some r.servers)
unfolding wait_ready
wait_ready-first reply i re zero r before e s h = absurd (omega arith)
wait_ready-first reply zero re (suc left) r before e s h =
    let same : re + 0 ≡ re = omega arith in
    let now : reply re ≡ some r = rw (← same) e in ground (arith, now, s)
wait_ready-first reply (suc i) re (suc left) r before e s h =
    let same : (k : ℕ) → re + suc k ≡ suc re + k = λ k. omega arith in
    let start : re + 0 ≡ re = omega arith in
    let (earlier, there, status) = before 0 (omega arith) in
    let now : reply re ≡ some earlier = rw (← start) there in
    let rest =
      wait_ready-first reply i (suc re) left r
        (λ k lt. let (q, e', n) = before (suc k) (omega arith) in (q, rw (← same k) e', n))
        (rw (← same i) e) s (omega arith) in
    ground (arith, now, status, rest)

-- The libstore that is made of a ring.
abbrev pub fresh_libstore : Bytes → LeaseMode → Ring → Libstore
fresh_libstore host_port mode members = record {
  host_port = host_port;
  mode = mode;
  members = members;
  conns = [];
  cache = [];
  records = [];
  heap = [];
}

pub fresh_libstore-IsCoherent :
    (host_port : Bytes) (mode : LeaseMode) (members : Ring)
    → IsCoherent (fresh_libstore host_port mode members)
unfolding lookup
fresh_libstore-IsCoherent host_port mode members = record {
  placed = λ k ref e. absurd cc;
  recorded = λ k values e. absurd cc;
  granted = λ k ref r e found lent. absurd cc;
  unshared = λ k j ref e e'. absurd cc;
}

pub fresh_libstore-IsRouted :
    (host_port : Bytes) (mode : LeaseMode) (members : Ring) (servers : List Node)
    → servers ≢ []
    → Extends empty_ring servers members
    → IsRouted (fresh_libstore host_port mode members)
unfolding lookup has
fresh_libstore-IsRouted host_port mode members servers used x = record {
  sorted = x.sorted;
  used = first servers used x.members;
  named = λ id there. elim (Option-cases (address id servers)) [
    | inl missing ↦ ground (arith, x.members id, missing, there)
    | inr (a, listed) ↦ (a, x.addresses id ∙ rw listed refl)
  ];
  dialled = λ id cli e. absurd cc;
}
  where
    first :
        (servers : List Node)
        → servers ≢ []
        → ((id : ℕ) → has id members.ring ≡ (has id [] || is_listed id servers))
        → members.ring ≢ []
    first [] u m e = u refl
    first (node ∷ rest) u m e = ground (arith, m node.node_id, e)

or_else-none : (a : Option Bytes) → or_else a none ≡ a
or_else-none none = refl
or_else-none (some a) = refl

-- If the master can be dialled, the callbacks can be registered, and one of the first five replies
-- of the master has status OK, with at least one server and no identifier twice, while those before
-- it have another status, then NewLibstore returns a libstore with the given address and mode that
-- is coherent and can reach the owners of its keys: its ring is ascending and has just the
-- identifiers of that reply, and each of them has the address that the reply gives it, and no other
-- identifier has one.
pub new_libstore-IsRouted :
    (reply : ℕ → Option ServersReply) (i : ℕ) (r : ServersReply) (host_port : Bytes)
    (mode : LeaseMode)
    → i < 5
    → ((k : ℕ)
        → k < i
        → (earlier : ServersReply) × (reply k ≡ some earlier) × (earlier.status ≢ ok))
    → reply i ≡ some r
    → r.status ≡ ok
    → r.servers ≢ []
    → AreDistinct r.servers
    → (ls : Libstore) × (new_libstore true true reply host_port mode ≡ done (State.ok ls))
      × IsRouted ls
      × ((id : ℕ) → has id ls.ring ≡ is_listed id r.servers)
      × ((id : ℕ) → lookup id ls.nodes ≡ address id r.servers)
      × IsCoherent ls
      × (ls.host_port ≡ host_port)
      × (ls.mode ≡ mode)
unfolding new_libstore lookup has
new_libstore-IsRouted reply i r host_port mode h before e s used distinct =
    let (members, built, x) =
      Returns-result (add_nodes empty_ring r.servers) (Extends empty_ring r.servers)
        (add_nodes-Extends empty_ring r.servers tt distinct (λ id listed. unfold has in refl)) in
    let same : (k : ℕ) → 0 + k ≡ k = λ k. omega arith in
    let found : wait_ready reply 0 attempts ≡ done (some r.servers) =
      wait_ready-first reply i 0 attempts r (λ k lt. rw (same k) (before k lt)) (rw (same i) e) s
        h in
    let guard : (may_lease mode && not (bytes_eqb host_port []) && not true) ≡ false =
      ground (arith, Bool-cases (may_lease mode), Bool-cases (bytes_eqb host_port [])) in
    (
      fresh_libstore host_port mode members,
      rw (found, new_libstore) (rw built (rw guard refl)),
      fresh_libstore-IsRouted host_port mode members r.servers used x,
      x.members,
      (λ id. x.addresses id ∙ or_else-none (address id r.servers)),
      fresh_libstore-IsCoherent host_port mode members,
      refl,
      refl,
    )
