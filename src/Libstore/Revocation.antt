-- ===== src/Libstore/Revocation.antt =====
-- src/libstore/libstore_impl.go: what the next query of a key gets after a reply with a lease, after a
-- revocation, and what becomes of a reply that comes after the recycler.
use simple_twitter.Common.{
  ℕ, ◌≡◌, ◌≢◌, refl, ◌∙◌, true, false, none, some, List, [], get_elem?, get_last?, length, arith,
  Bool-cases, inl, inr, done, panic, ◌>>=◌, Returns, Returns-map, Option-cases, subst,
}
use simple_twitter.Common.Order.{Bytes, bytes_eqb, bytes_order, bytes_eqb_iff}
use simple_twitter.Common.Int.{ℤ, int_ltb, int_sub}
use simple_twitter.Common.Map.{lookup, delete, lookup-insert_same, lookup-delete}
use simple_twitter.StorageServer.Proto.{Lease}
use simple_twitter.Libstore.State.{normal, Record, Libstore, LibEnv}
use simple_twitter.Libstore.Cache.{
  cached, begin_query, begin_mode, begin_record, begin_granted, end_query, revoke_lease, recycle,
  is_expired, record_place,
}
use simple_twitter.Libstore.Heap.{
  get_last?-add_query, get_elem?-append_new, get_elem?-set_same, get_last?-used,
}
use simple_twitter.Libstore.Coherence.{IsCoherent}
use simple_twitter.Libstore.Keeps.{Fits, begin_query-Begins}
use simple_twitter.Libstore.Ends.{revoke_lease-Revokes}

-- For a coherent libstore, whatever its mode, RevokeLease returns, and the next query of that key, at
-- any time, is not answered from the cache.
pub revoke_lease-asks_next :
    (key : Bytes) (ls : Libstore)
    → IsCoherent ls
    → Returns (revoke_lease key ls) (λ (ls', found).
      (env : LibEnv)
      → Returns
          (begin_query env key ls')
          (λ (ls'', begun). (values : List Bytes) → begun ≢ cached values))
revoke_lease-asks_next key ls c =
    Returns-map (revoke_lease key ls)
      (λ out r env.
        Returns-map (begin_query env key out.0)
          (λ q b values e.
            let held : lookup key out.0.cache ≡ some values = subst (Fits key out.0) e b.4 in
            ground (arith, held, r.2, lookup-delete key key ls.cache, bytes_eqb_iff key key))
          (begin_query-Begins env key out.0 r.0))
      (revoke_lease-Revokes key ls c)

begin_query-granted :
    (env : LibEnv) (key : Bytes) (ref : ℕ) (r : Record) (t : ℤ) (values : List Bytes)
    (ls : Libstore)
    → ls.mode ≡ normal
    → lookup key ls.records ≡ some ref
    → get_elem? ls.heap ref ≡ some r
    → r.granted ≡ true
    → get_last? r.history ≡ some t
    → int_ltb t (int_sub (env.clock 0) r.valid_seconds) ≡ false
    → lookup key ls.cache ≡ some values
    → Returns (begin_query env key ls) (λ out. out.1 ≡ cached values)
unfolding begin_query begin_mode begin_record is_expired begin_granted
begin_query-granted env key ref r t values ls m at found lent last live there =
    rw m (rw at (rw found (rw last (rw live (rw lent (rw (there, Returns) refl))))))

-- For a coherent libstore in mode Normal, where the second part of a query finds the record that the
-- first part found, and the reply grants a lease that was asked for: the next query gets the values
-- of that reply from the cache, if the time of the reply is not longer ago than the lease is valid.
pub end_query-cached_next :
    (env env' : LibEnv) (key : Bytes) (lease : Lease) (values : List Bytes) (ls : Libstore)
    → IsCoherent ls
    → ls.mode ≡ normal
    → lease.granted ≡ true
    → int_ltb (env.clock 2) (int_sub (env'.clock 0) lease.valid_seconds) ≡ false
    → Returns
        (end_query env key true (lookup key ls.records) lease values ls)
        (λ ls'. Returns (begin_query env' key ls') (λ out. out.1 ≡ cached values))
unfolding end_query record_place
end_query-cached_next env env' key lease values ls c m g live =
    elim (Option-cases (lookup key ls.records)) [
      | inl missing ↦
          rw (missing, end_query, Returns)
            (rw get_elem?-append_new (
              begin_query-granted env' key (length ls.heap) _ (env.clock 2) values _ m
                (lookup-insert_same key key (length ls.heap) ls.records hit)
                (get_elem?-set_same _ (length ls.heap) _ _ (get_elem?-append_new ls.heap _)) g
                (get_last?-add_query (env.clock 2) []) live
                (lookup-insert_same key key values ls.cache hit)))
      | inr (ref, at) ↦
          let (r, found, used) = c.placed key ref at in
          rw (at, end_query, Returns)
            (rw (found, Returns)
              (begin_query-granted env' key ref _ (env.clock 2) values _ m at
                (get_elem?-set_same ls.heap ref _ r found) g
                (get_last?-add_query (env.clock 2) r.history) live
                (lookup-insert_same key key values ls.cache hit)))
    ]
  where
    hit : bytes_eqb key key ≡ true
    hit = (bytes_eqb_iff key key).1 refl

recycle_free :
    (now : ℤ) (key : Bytes) (ref : ℕ) (r : Record) (ls : Libstore)
    → IsCoherent ls
    → lookup key ls.records ≡ some ref
    → get_elem? ls.heap ref ≡ some r
    → r.granted ≡ false
    → recycle now key ls
      ≡ done (record ls { cache = delete key ls.cache; records = delete key ls.records })
unfolding recycle is_expired
recycle_free now key ref r ls c at found free =
    let (r', found', used) = c.placed key ref at in
    let same : r' ≡ r = ground (arith, found', found) in
    let (t, last) = get_last?-used r.history (rw (← same) used.0) in
    ground (arith, Bool-cases (int_ltb t (int_sub now r.valid_seconds)))

-- For a key with a record that is not granted in a coherent libstore: if the recycler comes to the
-- key while a query waits that found the record and asked for a lease, and the reply to the query
-- comes after that, then the next RevokeLease for the key panics.
pub recycle-revoke_lease_panics :
    (env : LibEnv) (now : ℤ) (key : Bytes) (ref : ℕ) (r : Record) (lease : Lease)
    (values : List Bytes) (ls : Libstore)
    → IsCoherent ls
    → lookup key ls.records ≡ some ref
    → get_elem? ls.heap ref ≡ some r
    → r.granted ≡ false
    → (recycle now key ls >>= λ ls1.
        end_query env key true (some ref) lease values ls1 >>= revoke_lease key)
      ≡ panic
unfolding end_query record_place revoke_lease
recycle-revoke_lease_panics env now key ref r lease values ls c at found free =
    let hit = (bytes_eqb_iff key key).1 refl in
    let kept = lookup-insert_same key key values (delete key ls.cache) hit in
    let gone : lookup key (delete key ls.records) ≡ none =
      lookup-delete key key ls.records ∙ rw hit refl in
    rw (recycle_free now key ref r ls c at found free)
      (rw found (rw (kept, revoke_lease) (rw (gone, revoke_lease) refl)))
