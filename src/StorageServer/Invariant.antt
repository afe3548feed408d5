-- ===== src/StorageServer/Invariant.antt =====
-- The invariant of a storage server, and the changes of its state that keep it.
use simple_twitter.Common.{
  ℕ, ◌≡◌, ◌≢◌, refl, true, some, none, List, [], arith, sym, ◌∙◌, ap, Bool-cases, inl, inr,
}
use simple_twitter.Common.Int.{IsInt64}
use simple_twitter.Common.Order.{Bytes, bytes_eqb, bytes_order, nat_order}
use simple_twitter.Common.Map.{
  lookup, insert, delete, lookup-insert_same, lookup-insert_other, lookup-delete,
}
use simple_twitter.Text.Split.{Lacks}
use simple_twitter.Search.Sorted.{IsSorted}
use simple_twitter.Slices.{has}
use simple_twitter.Lease.Records.{Grants, hosts, records}
use simple_twitter.StorageServer.State.{StorageServer, Env}
use simple_twitter.StorageServer.Membership.{new_server}
use simple_twitter.StorageServer.Leases.{or_empty}
use simple_twitter.StorageServer.Leases.Grants.{
  AreGrants, insert_grant, insert_grant-AreGrants, lent,
}
use simple_twitter.StorageServer.Leases.Revoke.{AreClients, connect_due-AreClients, revoked}

pub record IsWellFormed (ss : StorageServer) : Type 0 where
  pub lists : (k : Bytes) (vs : List Bytes) → lookup k ss.storage ≡ some vs → IsSorted vs
  pub leases : (k : Bytes) → (grants : Grants) × AreGrants ss k grants
  pub clients : AreClients ss.conns
  pub ring_sorted : IsSorted ss.ring
  pub ring_used : ss.ring ≢ []

AreGrants-transfer :
    (ss ss' : StorageServer) (k : Bytes) (grants : Grants)
    → lookup k ss'.tenants ≡ lookup k ss.tenants
    → AreGrants ss k grants
    → AreGrants ss' k grants
AreGrants-transfer ss ss' k grants e g = record {
  listed = ap or_empty e ∙ g.listed;
  sorted = g.sorted;
  readable = g.readable;
}

no_grants : (ss : StorageServer) (k : Bytes) → lookup k ss.tenants ≡ none → AreGrants ss k []
no_grants ss k e = record { listed = ap or_empty e; sorted = tt; readable = tt }

pub revoked-IsWellFormed :
    (env : Env) (key : Bytes) (grants : Grants) (ss : StorageServer)
    → IsWellFormed ss
    → IsWellFormed (revoked env key grants ss)
revoked-IsWellFormed env key grants ss w = record {
  lists = w.lists;
  leases = λ k. elim (Bool-cases (bytes_eqb key k)) [
    | inl same ↦ ([], no_grants _ k (lookup-delete key k ss.tenants ∙ rw same))
    | inr other ↦ (
      (w.leases k).0,
      AreGrants-transfer ss _ k _ (lookup-delete key k ss.tenants ∙ rw other) (w.leases k).1,
    )
  ];
  clients = connect_due-AreClients env grants 0 ss.conns w.clients;
  ring_sorted = w.ring_sorted;
  ring_used = w.ring_used;
}

pub lent-IsWellFormed :
    (env : Env) (key host : Bytes) (grants : Grants) (ss : StorageServer)
    → AreGrants ss key grants
    → Lacks b'~' host
    → IsInt64 (env.clock 0)
    → IsWellFormed ss
    → IsWellFormed (lent env key host grants ss)
lent-IsWellFormed env key host grants ss g h t w = elim (Bool-cases (has host (hosts grants))) [
  | inl old ↦ rw old w
  | inr new ↦ rw new (record {
    lists = w.lists;
    leases = λ k. elim (Bool-cases (bytes_eqb key k)) [
      | inl same ↦ (
        insert_grant host (env.clock 0) grants,
        insert_grant-AreGrants host (env.clock 0) grants ss _ key k g new h t (
            lookup-insert_same key k (records (insert_grant host (env.clock 0) grants)) ss.tenants
              same),
      )
      | inr other ↦ (
        (w.leases k).0,
        AreGrants-transfer ss _ k _
            (lookup-insert_other key k (records (insert_grant host (env.clock 0) grants)) ss.tenants
              other)
            (w.leases k).1,
      )
    ];
    clients = w.clients;
    ring_sorted = w.ring_sorted;
    ring_used = w.ring_used;
  })
]

pub stored-IsWellFormed :
    (key : Bytes) (vs : List Bytes) (ss : StorageServer)
    → IsSorted vs
    → IsWellFormed ss
    → IsWellFormed (record ss { storage = insert key vs ss.storage })
stored-IsWellFormed key vs ss s w = record {
  lists = λ k us e. elim (Bool-cases (bytes_eqb key k)) [
    | inl same ↦
        let both : vs ≡ us = ground (arith, lookup-insert_same key k vs ss.storage same, e) in
        rw (← both) s
    | inr other ↦ w.lists k us (sym (lookup-insert_other key k vs ss.storage other) ∙ e)
  ];
  leases = λ k. ((w.leases k).0, AreGrants-transfer ss _ k _ refl (w.leases k).1);
  clients = w.clients;
  ring_sorted = w.ring_sorted;
  ring_used = w.ring_used;
}

pub deleted-IsWellFormed :
    (key : Bytes) (ss : StorageServer)
    → IsWellFormed ss
    → IsWellFormed (record ss { storage = delete key ss.storage })
deleted-IsWellFormed key ss w = record {
  lists = λ k us e. ground (arith, lookup-delete key k ss.storage, w.lists k us);
  leases = λ k. ((w.leases k).0, AreGrants-transfer ss _ k _ refl (w.leases k).1);
  clients = w.clients;
  ring_sorted = w.ring_sorted;
  ring_used = w.ring_used;
}

-- A master that has just been made is well-formed.
pub new_server-IsWellFormed :
    (hostport : Bytes) (num_nodes node_id : ℕ)
    → IsWellFormed (new_server true hostport num_nodes node_id)
unfolding new_server lookup
new_server-IsWellFormed hostport num_nodes node_id = record {
  lists = λ k vs e. ground arith;
  leases = λ k. ([], record { listed = refl; sorted = tt; readable = tt });
  clients = λ host cli e. ground arith;
  ring_sorted = (tt, tt);
  ring_used = λ e. cc;
}
