-- ===== src/StorageServer/Stale.antt =====
-- Two ways in which a holder of a lease is not told of a change.
use simple_twitter.Common.{
  refl, ap, Bool-cases, inl, inr, ◌≡◌, true, some, List, [], ◌∷◌, arith, done, Returns, Returns-map,
  ◌∙◌,
}
use simple_twitter.Common.Int.{ℤ, IsInt64}
use simple_twitter.Common.Order.{Bytes, bytes_order, bytes_eqb_iff}
use simple_twitter.Common.Map.{lookup, lookup-insert_same}
use simple_twitter.Text.Split.{Lacks}
use simple_twitter.Slices.{has, insert_sorted}
use simple_twitter.StorageServer.Proto.{ok, full_lease, GetArgs}
use simple_twitter.StorageServer.State.{StorageServer, Env, key_range_contains}
use simple_twitter.StorageServer.Leases.Grants.{
  AreGrants, insert_grant, insert_grant-AreGrants, hosts-insert_grant, lent,
}
use simple_twitter.StorageServer.Leases.{or_empty}
use simple_twitter.Lease.Records.{Grants, hosts, records}
use simple_twitter.Slices.Sets.{has-insert_sorted}
use simple_twitter.StorageServer.Leases.Revoke.{AllAnswer, is_over, due}
use simple_twitter.StorageServer.Handlers.{get, get_list, put, append_to_list}
use simple_twitter.StorageServer.Invariant.{IsWellFormed}
use simple_twitter.StorageServer.Refinement.{append_to_list-Serves, put-Serves}
use simple_twitter.StorageServer.Reads.{get-Reads, get_list-Reads, after_read}

-- After a read with a wish for a lease the host has a record, an old one or a new one.
lent-holds :
    (env : Env) (key host : Bytes) (grants : Grants) (ss : StorageServer)
    → AreGrants ss key grants
    → Lacks b'~' host
    → IsInt64 (env.clock 0)
    → (grants' : Grants) × AreGrants (lent env key host grants ss) key grants'
      × (has host (hosts grants') ≡ true)
lent-holds env key host grants ss g h now = elim (Bool-cases (has host (hosts grants))) [
  | inl old ↦ (grants, rw old g, old)
  | inr new ↦
      let grants' = insert_grant host (env.clock 0) grants in
      (
        grants',
        rw new (
            insert_grant-AreGrants host (env.clock 0) grants ss _ key key g new h now (
              lookup-insert_same key key (records grants') ss.tenants
                ((bytes_eqb_iff key key).1 refl))),
        rw hosts-insert_grant
            (ground (arith, has-insert_sorted host host (hosts grants), bytes_eqb_iff host host)),
      )
]

-- On an own key of a well-formed server whose list is empty, a host that reads with GetList and
-- wants a lease gets the empty list and a lease. If AppendToList comes next, where all hosts
-- answer, it replies OK and the list has the new value, but no call is sent, although the host has
-- its lease record before and after. The host's address holds no tilde, and the clock of the read
-- fits in 64 bits.
pub append_to_list_untold :
    (env env' : Env) (args : GetArgs) (ss : StorageServer) (val : Bytes)
    → IsWellFormed ss
    → Lacks b'~' args.host_port
    → IsInt64 (env.clock 0)
    → AllAnswer env'
    → key_range_contains ss args.key ≡ done true
    → args.want_lease ≡ true
    → lookup args.key ss.storage ≡ some []
    → Returns (get_list env args ss) (λ a.
      (a.reply ≡ record { status = ok; value = []; lease = full_lease })
      × Returns (append_to_list env' (record { key = args.key; value = val }) a.server) (λ b.
        (b.reply ≡ ok)
        × (lookup args.key b.server.storage ≡ some (val ∷ []))
        × (b.calls ≡ [])
        × ((grants : Grants) × AreGrants a.server args.key grants
            × AreGrants b.server args.key grants
            × (has args.host_port (hosts grants) ≡ true))))
unfolding has insert_sorted key_range_contains
append_to_list_untold env env' args ss val w host now reachable own want e =
    Returns-map (get_list env args ss)
      (λ a r.
        let lends : a.server ≡ lent env args.key args.host_port (w.leases args.key).0 ss =
          r.server ∙ rw (e, want) refl in
        let there : lookup args.key a.server.storage ≡ some [] = rw r.storage e in
        let (grants, g, holds) =
          lent-holds env args.key args.host_port _ ss (w.leases args.key).1 host now in
        let g' : AreGrants a.server args.key grants = rw lends g in
        (
          r.replied ∙ rw (e, want) refl,
          Returns-map (append_to_list env' (record { key = args.key; value = val }) a.server)
              (λ b s.
                let kept : lookup args.key b.server.tenants ≡ lookup args.key a.server.tenants =
                  ground (arith, s.tenants args.key, there) in
                (
                  ground (arith, s.reply, there),
                  ground (arith, s.storage args.key, there, bytes_eqb_iff args.key args.key),
                  ground (arith, s.calls, there),
                  (
                    grants,
                    g',
                    record {
                      listed = ap or_empty kept ∙ g'.listed;
                      sorted = g'.sorted;
                      readable = g'.readable;
                    },
                    holds,
                  ),
                ))
              (append_to_list-Serves env' a.server args.key _ r.well_formed g' reachable
                (rw (r.members, r.node_id) own) val),
        ))
      (get_list-Reads env args ss _ w (w.leases args.key).1 host now own)

same_server :
    (env : Env) (args : GetArgs) (ss : StorageServer) (t : ℤ) (vs : List Bytes)
    → args.want_lease ≡ true
    → lookup args.key ss.storage ≡ some vs
    → after_read env args ((args.host_port, t) ∷ []) ss (lookup args.key ss.storage) ≡ ss
unfolding has
same_server env args ss t vs want e =
    rw (e, want) (ground (arith, bytes_eqb_iff args.host_port args.host_port))

-- On an own key of a well-formed server, a host that alone has a lease record and reads with a wish
-- for a lease is granted another one, but its record keeps the time of the first. If that is over
-- for the server at the next Put, where all hosts answer, the Put replies OK, the key has the new
-- value, and nobody is told.
pub renewed_lease_not_recorded :
    (env env' : Env) (args : GetArgs) (ss : StorageServer) (val : Bytes) (t : ℤ) (vs : List Bytes)
    → IsWellFormed ss
    → AreGrants ss args.key ((args.host_port, t) ∷ [])
    → Lacks b'~' args.host_port
    → IsInt64 (env.clock 0)
    → AllAnswer env'
    → key_range_contains ss args.key ≡ done true
    → args.want_lease ≡ true
    → lookup args.key ss.storage ≡ some vs
    → is_over env' 0 t ≡ true
    → Returns (get env args ss) (λ a.
      (a.reply.lease ≡ full_lease)
      × AreGrants a.server args.key ((args.host_port, t) ∷ [])
      × Returns (put env' (record { key = args.key; value = val }) a.server) (λ b.
        (b.reply ≡ ok) × (lookup args.key b.server.storage ≡ some (val ∷ [])) × (b.calls ≡ [])))
unfolding due
renewed_lease_not_recorded env env' args ss val t vs w g host now reachable own want e over =
    Returns-map (get env args ss)
      (λ a r. (
        ground (arith, r.replied, e, want),
        rw (r.server ∙ same_server env args ss t vs want e) g,
        rw (r.server ∙ same_server env args ss t vs want e) (
            Returns-map (put env' (record { key = args.key; value = val }) ss)
              (λ b s. (
                s.reply,
                ground (arith, s.storage args.key, bytes_eqb_iff args.key args.key),
                ground (arith, s.calls, over),
              ))
              (put-Serves env' ss args.key _ w g reachable own val)),
      ))
      (get-Reads env args ss _ w g host now own)
