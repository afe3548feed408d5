-- ===== src/Tests/Libstore.antt =====
-- The libstore at concrete inputs.
use simple_twitter.Common.{
  ℕ, zero, suc, ◌≡◌, ◌≢◌, ◌∷◌, [], refl, true, false, List, Option, arith, done, done-injective,
  panic, ◌>>=◌, Returns, some, some-injective, subst,
}
use simple_twitter.Common.Int.{pos, int_ltb, int_sub}
use simple_twitter.Common.Order.{Bytes, nat_order, bytes_order, bytes_eqb}
use simple_twitter.Common.Map.{lookup, insert, delete}
use simple_twitter.Text.{codes}
use simple_twitter.Slices.{has}
use simple_twitter.Ring.{Ring}
use simple_twitter.Ring.Build.{address, is_listed}
use simple_twitter.StorageServer.Proto.{
  full_lease, ServersReply, GetReply, GetListReply, ok, not_ready,
}
use simple_twitter.Libstore.State.{normal, Record, Libstore, LibEnv, Result}
use simple_twitter.Libstore.State
use simple_twitter.Libstore.Cache.{
  is_expired, cached, begin_query, end_query, revoke_lease, recycle,
}
use simple_twitter.Libstore.Coherence.{IsCoherent, place_record, place_cached-IsCoherent}
use simple_twitter.Libstore.Requests.{Call, get_list_call, query_of, get_list}
use simple_twitter.Libstore.Events.{
  Session, perform, Event, get_query, list_query, replied, failed, revoked, recycled, run,
}
use simple_twitter.Libstore.Session.{IsSound, run-IsSound}
use simple_twitter.Libstore.Policy.{
  IsAscending, record_of, values_of, decision, begin_query-decides,
}
use simple_twitter.Libstore.Revocation.{
  revoke_lease-asks_next, end_query-cached_next, recycle-revoke_lease_panics,
}
use simple_twitter.Libstore.Routing.{IsRouted}
use simple_twitter.Libstore.Answers.{Answered, list_result, get_list-Answered}
use simple_twitter.Libstore.Setup.{new_libstore}
use simple_twitter.Libstore.Ready.{fresh_libstore, fresh_libstore-IsCoherent, new_libstore-IsRouted}
use simple_twitter.Tests.Data.{app_host, list_key, amy, bob}

abbrev pub one_server : Ring
one_server = record { ring = 7 ∷ []; nodes = (7, codes "localhost:9000") ∷ [] }

abbrev pub at_time : ℕ → LibEnv
at_time seconds = record { clock = λ k. pos seconds; dials = λ address. true }

-- Three queries, and a lease that is over.
abbrev busy : Record
busy = record { granted = false; valid_seconds = 10; history = pos 100 ∷ pos 101 ∷ pos 102 ∷ [] }

abbrev before : Libstore
before = fresh_libstore app_host normal one_server

abbrev held : Libstore
held = record (place_record list_key busy before) {
  cache = insert list_key (amy ∷ []) before.cache;
}

held-IsCoherent : IsCoherent held
held-IsCoherent =
    place_cached-IsCoherent list_key (amy ∷ []) busy before
      (fresh_libstore-IsCoherent app_host normal one_server) (omega arith, omega arith)

held-IsRouted : IsRouted held
unfolding has lookup
held-IsRouted = record {
  sorted = (tt, tt);
  used = λ e. cc;
  named = λ id h. (codes "localhost:9000", ground arith);
  dialled = λ id cli e. absurd cc;
}

held-at : lookup list_key held.records ≡ some 0
unfolding lookup insert bytes_eqb
held-at = refl

abbrev events : List (LibEnv × Event)
events =
    (at_time 104, recycled list_key)
    ∷ (at_time 104, get_query list_key)
    ∷ (at_time 104, list_query list_key)
    ∷ (at_time 104, failed 0)
    ∷ (at_time 105, replied 0 full_lease (amy ∷ bob ∷ []))
    ∷ (at_time 106, revoked list_key)
    ∷ []

-- The recycler takes the list out of the cache.
recycled-empty :
    (s : Session)
    → perform (at_time 104) (recycled list_key) (record { libstore = held; waiting = [] }) ≡ done s
    → lookup list_key s.libstore.cache ≢ some []
unfolding perform recycle is_expired lookup insert delete bytes_eqb int_ltb int_sub
recycled-empty s e =
    subst (λ (x : Session). lookup list_key x.libstore.cache ≢ some []) (done-injective e)
      (λ e'. absurd cc)

run-IsSound_example : Returns (run events (record { libstore = held; waiting = [] })) IsSound
run-IsSound_example =
    run-IsSound events (record { libstore = held; waiting = [] })
      (record { coherent = held-IsCoherent; routed = held-IsRouted; served = tt })
      (
        tt,
        λ s e. (
          ((λ a. refl), recycled-empty s e),
          λ s e. ((λ a. refl), λ s e. (tt, λ s e. (tt, λ s e. (tt, λ s e. tt)))),
        ),
      )

revoke_lease-asks_next_example : Returns (revoke_lease list_key held) (λ (ls', found).
    (env : LibEnv)
    → Returns
        (begin_query env list_key ls')
        (λ (ls'', begun). (values : List Bytes) → begun ≢ cached values))
revoke_lease-asks_next_example = revoke_lease-asks_next list_key held held-IsCoherent

begin_query-decides_example : Returns (begin_query (at_time 104) list_key held) (λ out.
    out.1
    ≡ decision
        (at_time 104)
        held.mode
        (lookup list_key held.records)
        (record_of list_key held)
        (values_of (lookup list_key held.cache)))
unfolding lookup insert bytes_eqb int_ltb
begin_query-decides_example =
    begin_query-decides (at_time 104) list_key held held-IsCoherent
      (λ r e. subst (λ x. IsAscending x.history) (some-injective busy r e) (refl, (refl, tt)))

end_query-cached_next_example :
    Returns
      (end_query
        (at_time 104)
        list_key
        true
        (lookup list_key held.records)
        full_lease
        (amy ∷ bob ∷ [])
        held)
      (λ ls'.
        Returns (begin_query (at_time 110) list_key ls') (λ out. out.1 ≡ cached (amy ∷ bob ∷ [])))
unfolding int_ltb int_sub
end_query-cached_next_example =
    end_query-cached_next (at_time 104) (at_time 110) list_key full_lease (amy ∷ bob ∷ []) held
      held-IsCoherent refl refl refl

recycle-revoke_lease_panics_example :
    (recycle (pos 104) list_key held >>= λ ls1.
    end_query (at_time 105) list_key true (some 0) full_lease (amy ∷ bob ∷ []) ls1
    >>= revoke_lease list_key)
    ≡ panic
recycle-revoke_lease_panics_example =
    recycle-revoke_lease_panics (at_time 105) (pos 104) list_key 0 busy full_lease (amy ∷ bob ∷ [])
      held held-IsCoherent held-at refl refl

abbrev list_answer : Call → Option GetListReply
list_answer call = some (record { status = ok; value = amy ∷ bob ∷ []; lease = full_lease })

get_list-Answered_example : Returns (get_list (at_time 104) list_key list_answer held) (
    Answered held list_key
      (λ w. get_list_call (query_of list_key w held))
      State.ok
      (λ call. list_result list_key (list_answer call)))
get_list-Answered_example =
    get_list-Answered (at_time 104) list_key list_answer held held-IsCoherent held-IsRouted
      (λ a. refl)

abbrev value_answer : Call → Option GetReply
value_answer call = some (record { status = ok; value = amy; lease = full_lease })

filled : lookup list_key held.cache ≢ some []
unfolding lookup insert bytes_eqb
filled e = cc

abbrev the_reply : ServersReply
the_reply = record {
  status = ok;
  servers =
      record { host_port = codes "localhost:9000"; node_id = 7 }
      ∷ record { host_port = codes "localhost:9001"; node_id = 5 }
      ∷ [];
}

abbrev master : ℕ → Option ServersReply
master zero = some (record { status = not_ready; servers = [] })
master (suc k) = some the_reply

new_libstore-IsRouted_example :
    (ls : Libstore) × (new_libstore true true master app_host normal ≡ done (State.ok ls))
    × IsRouted ls
    × ((id : ℕ) → has id ls.ring ≡ is_listed id the_reply.servers)
    × ((id : ℕ) → lookup id ls.nodes ≡ address id the_reply.servers)
    × IsCoherent ls
    × (ls.host_port ≡ app_host)
    × (ls.mode ≡ normal)
new_libstore-IsRouted_example =
    new_libstore-IsRouted master 1 the_reply app_host normal (omega arith)
      (λ k h. (record { status = not_ready; servers = [] }, ground arith, λ e. absurd cc)) refl refl
      (λ e. cc) (refl, (refl, tt))
