-- ===== src/Libstore/Extended.antt =====
-- src/libstore/libstore_impl.go: a lease that is used in time never ends for the libstore, since
-- `Get` and `GetList` count its seconds from the last query and not from the grant.
use simple_twitter.Common.{
  ℕ, ◌≡◌, refl, true, false, some, List, [], ◌∷◌, All, get_elem?, get_last?, arith, done, ◌>>=◌,
  Outcome, Returns, Returns-map, Returns-bind,
}
use simple_twitter.Common.Order.{Bytes, bytes_order, bytes_eqb_iff}
use simple_twitter.Common.Int.{ℤ, int_ltb, int_sub}
use simple_twitter.Common.Map.{lookup}
use simple_twitter.StorageServer.Proto.{ok}
use simple_twitter.StorageServer.State.{StorageServer, Env, key_range_contains}
use simple_twitter.StorageServer.Leases.Grants.{AreGrants}
use simple_twitter.StorageServer.Leases.Revoke.{AllAnswer, is_over, due}
use simple_twitter.StorageServer.Handlers.{put}
use simple_twitter.StorageServer.Invariant.{IsWellFormed}
use simple_twitter.StorageServer.Refinement.{put-Serves}
use simple_twitter.Libstore.State.{normal, set, Record, Libstore, LibEnv}
use simple_twitter.Libstore.Cache.{
  Begun, cached, begin_query, begin_mode, begin_record, begin_granted, is_expired, add_query,
}
use simple_twitter.Libstore.Heap.{get_elem?-set_same, get_last?-add_query}

-- Queries of a key, one after the other, each up to its answer from the cache or its request.
unfoldable pub begin_queries : Bytes → List LibEnv → Libstore → Outcome (Libstore × List Begun)
begin_queries key [] ls = done (ls, [])
begin_queries key (env ∷ envs) ls = begin_query env key ls >>= λ (ls', begun).
    begin_queries key envs ls' >>= λ (ls'', rest). done (ls'', begun ∷ rest)

-- The libstore holds a lease on the key for so many seconds, with these values, and the last query
-- was at this time.
pub record Holds (key : Bytes) (values : List Bytes) (valid : ℕ) (last : ℤ) (ls : Libstore)
    : Type 0 where
  pub mode : ls.mode ≡ normal
  pub ref : ℕ
  pub held : Record
  pub at : lookup key ls.records ≡ some ref
  pub found : get_elem? ls.heap ref ≡ some held
  pub granted : held.granted ≡ true
  pub seconds : held.valid_seconds ≡ valid
  pub queried : get_last? held.history ≡ some last
  pub values_at : lookup key ls.cache ≡ some values

-- No query comes later after the one before than the lease is valid.
abbrev pub IsPaced : ℕ → ℤ → List LibEnv → Type 0
IsPaced valid last [] = Unit
IsPaced valid last (env ∷ envs) =
    (int_ltb last (int_sub (env.clock 0) valid) ≡ false) × IsPaced valid (env.clock 1) envs

begin_query-Holds :
    (key : Bytes) (values : List Bytes) (valid : ℕ) (last : ℤ) (env : LibEnv) (ls : Libstore)
    → Holds key values valid last ls
    → int_ltb last (int_sub (env.clock 0) valid) ≡ false
    → Returns
        (begin_query env key ls)
        (λ (ls', begun). (begun ≡ cached values) × Holds key values valid (env.clock 1) ls')
unfolding begin_query begin_mode begin_record is_expired begin_granted
begin_query-Holds key values valid last env ls h live =
    let r = h.held in
    let lent : Record = record r { granted = true } in
    let fresh : int_ltb last (int_sub (env.clock 0) r.valid_seconds) ≡ false = rw h.seconds live in
    rw h.mode (
      rw h.at (
        rw h.found (
          rw h.queried (
            rw fresh (
              rw h.granted (
                rw (h.values_at, Returns)
                  (
                    refl,
                    record {
                      mode = refl;
                      ref = h.ref;
                      held = record lent { history = add_query (env.clock 1) r.history };
                      at = h.at;
                      found =
                          get_elem?-set_same (set ls.heap h.ref lent) h.ref _ lent
                            (get_elem?-set_same ls.heap h.ref lent r h.found);
                      granted = refl;
                      seconds = h.seconds;
                      queried = get_last?-add_query (env.clock 1) r.history;
                      values_at = h.values_at;
                    },
                  )))))))

-- However much time passes, the cache answers.
begin_queries-cached :
    (key : Bytes) (values : List Bytes) (valid : ℕ) (last : ℤ) (envs : List LibEnv) (ls : Libstore)
    → Holds key values valid last ls
    → IsPaced valid last envs
    → Returns (begin_queries key envs ls) (λ (ls', begun). All (λ b. b ≡ cached values) begun)
unfolding begin_queries
begin_queries-cached key values valid last [] ls h p = tt
begin_queries-cached key values valid last (env ∷ envs) ls h p =
    Returns-bind (begin_query env key ls) _ _ _
      (begin_query-Holds key values valid last env ls h p.0)
      (λ (ls', begun) b.
        Returns-bind (begin_queries key envs ls') _ _ _
          (begin_queries-cached key values valid (env.clock 1) envs ls' b.1 p.1)
          (λ out c. (b.0, c)))

-- A libstore that holds a lease, and queries the key again and again with never more time in between
-- than the lease is valid, gets the values that it has from its cache every time, however long this
-- goes on. The storage server has the lease under the time of the grant: when that is over for it, a
-- Put of the key, where all hosts answer, changes the value and tells nobody.
pub begin_queries-stale :
    (key val : Bytes) (values : List Bytes) (valid : ℕ) (last granted_at : ℤ) (envs : List LibEnv)
    (ls : Libstore) (env : Env) (ss : StorageServer)
    → Holds key values valid last ls
    → IsPaced valid last envs
    → IsWellFormed ss
    → AreGrants ss key ((ls.host_port, granted_at) ∷ [])
    → AllAnswer env
    → key_range_contains ss key ≡ done true
    → is_over env 0 granted_at ≡ true
    → Returns (begin_queries key envs ls) (λ (ls', begun). All (λ b. b ≡ cached values) begun)
      × Returns
          (put env (record { key = key; value = val }) ss)
          (λ a. (a.reply ≡ ok) × (lookup key a.server.storage ≡ some (val ∷ [])) × (a.calls ≡ []))
unfolding due
begin_queries-stale key val values valid last granted_at envs ls env ss h p w g reachable own over =
    (
      begin_queries-cached key values valid last envs ls h p,
      Returns-map (put env (record { key = key; value = val }) ss)
          (λ a s. (
            s.reply,
            ground (arith, s.storage key, bytes_eqb_iff key key),
            ground (arith, s.calls, over),
          ))
          (put-Serves env ss key _ w g reachable own val),
    )
