-- ===== src/Libstore/Session.antt =====
-- src/libstore/libstore_impl.go: the invariant of a libstore under sequences of events.
use simple_twitter.Common.{
  ◌≡◌, ◌≢◌, ◌∙◌, inl, inr, some, List, [], ◌∷◌, get_elem?, All, Option-cases, sym, ap, true, refl,
  done, Returns, Returns-result, Returns-bind,
}
use simple_twitter.Common.Order.{Bytes, bytes_order}
use simple_twitter.Common.Map.{lookup, delete}
use simple_twitter.Libstore.State.{Libstore, LibEnv}
use simple_twitter.Libstore.Cache.{
  Begun, cached, ask, begin_query, end_query, revoke_lease, recycle,
}
use simple_twitter.Libstore.Coherence.{IsCoherent}
use simple_twitter.Libstore.Later.{
  IsLater, IsLater-trans, same-IsLater, Request, IsServed, later-IsServed, forget-IsServed,
}
use simple_twitter.Libstore.Keeps.{Begins, begin_query-Begins}
use simple_twitter.Libstore.Ends.{
  SamePlace, end_query-Ends, end_query-SamePlace, revoke_lease-Revokes, recycle-Recycles,
}
use simple_twitter.Libstore.Requests.{get_storage_server}
use simple_twitter.Libstore.Routing.{IsRouted, Reaches, get_storage_server-Reaches}
use simple_twitter.Libstore.Answers.{connected-IsCoherent, moved-IsRouted, found-MayEnd}
use simple_twitter.Libstore.Events.{
  Session, Event, get_query, list_query, replied, failed, revoked, recycled, await, take_first,
  perform, run, All-map, All-remove, All-at,
}

-- The storage servers can be dialled, no list without values is cached for a key that `Get` asks for,
-- and the recycler does not come to a key while a query for it waits.
abbrev pub IsQuiet : LibEnv → Event → Session → Type 0
IsQuiet env (get_query key) s =
    ((a : Bytes) → env.dials a ≡ true) × (lookup key s.libstore.cache ≢ some [])
IsQuiet env (list_query key) s = (a : Bytes) → env.dials a ≡ true
IsQuiet env (recycled key) s = All (λ q. q.key ≢ key) s.waiting
IsQuiet env _ s = Unit

abbrev pub AreQuiet : List (LibEnv × Event) → Session → Type 0
AreQuiet [] s = Unit
AreQuiet ((env, event) ∷ events) s =
    IsQuiet env event s × ((s' : Session) → perform env event s ≡ done s' → AreQuiet events s')

pub record IsSound (s : Session) : Type 0 where
  pub coherent : IsCoherent s.libstore
  pub routed : IsRouted s.libstore
  pub served : All (IsServed s.libstore) s.waiting

SamePlace-IsRouted : (ls ls' : Libstore) → SamePlace ls ls' → IsRouted ls → IsRouted ls'
SamePlace-IsRouted ls ls' s r =
    let moved : IsRouted (record ls { members = ls'.members; conns = ls'.conns }) =
      rw (s.1, s.3)
        (record { sorted = r.sorted; used = r.used; named = r.named; dialled = r.dialled }) in
    record {
      sorted = moved.sorted;
      used = moved.used;
      named = moved.named;
      dialled = moved.dialled;
    }

waiting-IsServed :
    (ls ls' : Libstore) (waiting : List Request)
    → IsLater ls ls'
    → All (IsServed ls) waiting
    → All (IsServed ls') waiting
waiting-IsServed ls ls' waiting l h = All-map waiting (λ q. later-IsServed ls ls' q l) h

forgotten-IsServed :
    (key : Bytes) (ls : Libstore) (waiting : List Request)
    → All (λ q. q.key ≢ key) waiting
    → All (IsServed ls) waiting
    → All
        (IsServed (record ls { cache = delete key ls.cache; records = delete key ls.records }))
        waiting
forgotten-IsServed key ls [] quiet h = tt
forgotten-IsServed key ls (q ∷ waiting) quiet h =
    (forget-IsServed key ls q quiet.0 h.0, forgotten-IsServed key ls waiting quiet.1 h.1)

-- The query that has just begun, with the values that it gives or its request on the way.
begun-IsSound :
    (env : LibEnv) (key : Bytes) (ls ls' : Libstore) (begun : Begun) (waiting : List Request)
    → ((a : Bytes) → env.dials a ≡ true)
    → Begins key ls (ls', begun)
    → IsRouted ls
    → All (IsServed ls) waiting
    → Returns (await env key waiting (ls', begun)) IsSound
unfolding await
begun-IsSound env key ls ls' (cached values) waiting dials b r h = record {
  coherent = b.0;
  routed = moved-IsRouted ls ls' r b.5;
  served = waiting-IsServed ls ls' waiting b.3 h;
}
begun-IsSound env key ls ls' (ask want_lease rec) waiting dials b r h =
    Returns-bind (get_storage_server env key ls') _ (Reaches ls' key) IsSound
      (get_storage_server-Reaches env key ls' (moved-IsRouted ls ls' r b.5) dials)
      (λ (cli, ls'') t.
        let c = connected-IsCoherent ls' ls'' b.0 t.1 in
        let later = same-IsLater ls' ls'' (ap (λ x. x.heap) t.1) (ap (λ x. x.records) t.1) in
        let table : ls''.records ≡ ls.records = ap (λ x. x.records) t.1 ∙ b.2 in
        record {
          coherent = c;
          routed = t.0;
          served = (
            found-MayEnd key ls'' rec c (b.4 ∙ ap (lookup key) (sym table)),
            waiting-IsServed ls ls'' waiting (IsLater-trans ls ls' ls'' b.3 later) h,
          );
        })

-- `Get` finds a value where the cached list is not empty.
take_first-Begins :
    (key : Bytes) (ls ls' : Libstore) (begun : Begun)
    → lookup key ls.cache ≢ some []
    → Begins key ls (ls', begun)
    → Returns (take_first (ls', begun)) (λ out.
      (begun' : Begun) × (out ≡ (ls', begun'))
      × ((waiting : List Request) (env : LibEnv)
          → await env key waiting (ls', begun') ≡ await env key waiting (ls', begun)))
unfolding take_first await
take_first-Begins key ls ls' (cached []) filled b = absurd (filled b.4)
take_first-Begins key ls ls' (cached (v ∷ vs)) filled b =
    (cached (v ∷ []), refl, λ waiting env. refl)
take_first-Begins key ls ls' (ask want_lease rec) filled b =
    (ask want_lease rec, refl, λ waiting env. refl)

perform-IsSound :
    (env : LibEnv) (event : Event) (s : Session)
    → IsSound s
    → IsQuiet env event s
    → Returns (perform env event s) IsSound
unfolding perform
perform-IsSound env (get_query key) s h quiet =
    Returns-bind (begin_query env key s.libstore) _ (Begins key s.libstore) IsSound
      (begin_query-Begins env key s.libstore h.coherent)
      (λ (ls, begun) b.
        Returns-bind (take_first (ls, begun)) _ _ IsSound
          (take_first-Begins key s.libstore ls begun quiet.1 b)
          (λ out (begun', e, same).
            rw (e, same s.waiting env)
              (begun-IsSound env key s.libstore ls begun s.waiting quiet.0 b h.routed h.served)))
perform-IsSound env (list_query key) s h quiet =
    Returns-bind (begin_query env key s.libstore) _ (Begins key s.libstore) IsSound
      (begin_query-Begins env key s.libstore h.coherent)
      (λ (ls, begun) b.
        begun-IsSound env key s.libstore ls begun s.waiting quiet b h.routed h.served)
perform-IsSound env (replied i lease values) s h quiet =
    elim (Option-cases (get_elem? s.waiting i)) [
      | inl missing ↦ rw (missing, perform, Returns) h
      | inr (q, there) ↦
          rw (there, perform, Returns)
            (let (ls, d, e) =
                Returns-result (end_query env q.key q.want_lease q.rec lease values s.libstore) _ (
                  end_query-Ends env q.key q.want_lease q.rec lease values s.libstore h.coherent
                    (All-at _ i s.waiting q h.served there)) in
              rw d (record {
                coherent = e.0;
                routed =
                    SamePlace-IsRouted s.libstore ls
                      (end_query-SamePlace env q.key q.want_lease q.rec lease values s.libstore ls
                        d)
                      h.routed;
                served =
                    All-remove _ i s.waiting
                      (waiting-IsServed s.libstore ls s.waiting e.1 h.served);
              }))
    ]
perform-IsSound env (failed i) s h quiet = record {
  coherent = h.coherent;
  routed = h.routed;
  served = All-remove _ i s.waiting h.served;
}
perform-IsSound env (revoked key) s h quiet =
    Returns-bind (revoke_lease key s.libstore) _ _ IsSound
      (revoke_lease-Revokes key s.libstore h.coherent)
      (λ (ls, found) r. record {
        coherent = r.0;
        routed = SamePlace-IsRouted s.libstore ls r.4 h.routed;
        served = waiting-IsServed s.libstore ls s.waiting r.1 h.served;
      })
perform-IsSound env (recycled key) s h quiet =
    Returns-bind (recycle (env.clock 0) key s.libstore) _ _ IsSound
      (recycle-Recycles (env.clock 0) key s.libstore h.coherent)
      (λ ls r. elim r.1 [
        | inl kept ↦ record { coherent = r.0; routed = rw kept h.routed; served = rw kept h.served }
        | inr gone ↦ record {
          coherent = r.0;
          routed = rw gone (record {
            sorted = h.routed.sorted;
            used = h.routed.used;
            named = h.routed.named;
            dialled = h.routed.dialled;
          });
          served = rw gone (forgotten-IsServed key s.libstore s.waiting quiet h.served);
        }
      ])

-- From a sound state, for every sequence of queries by Get and GetList, replies, failures,
-- revocations and rounds of the recycler, in which every storage server can be dialled, Get never
-- asks for a key for which a list without values is cached, and the recycler never comes to a key
-- for which a query waits: nothing panics or exits, and the state at the end is sound. Sound means
-- that a cached key has a lease record, a granted record has cached values, no two keys share a
-- record, every history holds one to three queries, the libstore can reach the owners of its keys,
-- and a query that waits has a record of its own key or none.
pub run-IsSound :
    (events : List (LibEnv × Event)) (s : Session)
    → IsSound s
    → AreQuiet events s
    → Returns (run events s) IsSound
unfolding run
run-IsSound [] s h quiet = h
run-IsSound ((env, event) ∷ events) s h quiet =
    let (s', e, h') =
      Returns-result (perform env event s) IsSound (perform-IsSound env event s h quiet.0) in
    rw e (run-IsSound events s' h' (quiet.1 s' e))
