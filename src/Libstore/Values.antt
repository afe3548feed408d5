-- ===== src/Libstore/Values.antt =====
-- src/libstore/libstore_impl.go: `Get` as a whole, where nothing comes between its two parts.
use simple_twitter.Common.{
  Returns-result, ℕ, ◌≡◌, ◌≢◌, inl, inr, refl, Bool, true, Option, none, some, List, [], ◌∷◌,
  get_elem?, Outcome, index, ◌>>=◌, Returns, Returns-map, Returns-bind,
}
use simple_twitter.Common.Order.{Bytes, bytes_order, nat_order}
use simple_twitter.Common.Map.{lookup}
use simple_twitter.StorageServer.Proto.{Status, ok, key_not_found, GetReply}
use simple_twitter.StorageServer.State.{Client}
use simple_twitter.Libstore.State.{
  Libstore, LibEnv, Result, call_failed, unknown_reply, should_not_be_reached,
}
use simple_twitter.Libstore.State
use simple_twitter.Libstore.Cache.{Begun, cached, ask, begin_query, end_query}
use simple_twitter.Libstore.Requests.{
  Call, get_call, Finished, finish, query_of, get_storage_server, end_get, get,
}
use simple_twitter.Libstore.Coherence.{IsCoherent}
use simple_twitter.Libstore.Keeps.{Begins, begin_query-Begins}
use simple_twitter.Libstore.Ends.{MayEnd, SamePlace, end_query-Ends, end_query-SamePlace}
use simple_twitter.Libstore.Routing.{IsRouted}
use simple_twitter.StorageServer.Handlers.{first_value}
use simple_twitter.Libstore.Answers.{Answered, Ready, asked-Ready}

-- What a reply to Get means.
abbrev pub value_result : Bytes → Option GetReply → Result Bytes
value_result key none = State.err call_failed
value_result key (some reply) = elim reply.status [
  | ok ↦ State.ok reply.value
  | key_not_found ↦ State.err (State.key_not_found key)
  | _ ↦ State.err should_not_be_reached
]

pub end_get-result :
    (env : LibEnv) (key : Bytes) (want_lease : Bool) (rec : Option ℕ) (reply : Option GetReply)
    (sent : List (Client × Call)) (ls : Libstore)
    → IsCoherent ls
    → MayEnd key ls rec
    → Returns (end_get env key want_lease rec reply sent ls) (λ f.
      IsCoherent f.libstore
      × (f.result ≡ value_result key reply)
      × (f.sent ≡ sent)
      × SamePlace ls f.libstore)
unfolding end_get
end_get-result env key w rec none sent ls c s = (c, refl, refl, (refl, refl, refl, refl))
end_get-result env key w rec (some reply) sent ls c s = go reply.status
  where
    go :
        (status : Status)
        → Returns
            (elim status as (λ x. Outcome (Finished Bytes)) [
              | ok ↦ end_query env key w rec reply.lease (reply.value ∷ []) ls >>= λ ls'.
                  finish ls' (State.ok reply.value) sent
              | key_not_found ↦ finish ls (State.err (State.key_not_found key)) sent
              | _ ↦ finish ls (State.err should_not_be_reached) sent
            ])
            (λ f.
              IsCoherent f.libstore
              × (f.result ≡ elim status as (λ x. Result Bytes) [
                | ok ↦ State.ok reply.value
                | key_not_found ↦ State.err (State.key_not_found key)
                | _ ↦ State.err should_not_be_reached
              ])
              × (f.sent ≡ sent)
              × SamePlace ls f.libstore)
    go ok =
        let (ls', d, e) =
          Returns-result (end_query env key w rec reply.lease (reply.value ∷ []) ls) _
            (end_query-Ends env key w rec reply.lease (reply.value ∷ []) ls c s) in
        rw d (
          e.0,
          refl,
          refl,
          end_query-SamePlace env key w rec reply.lease (reply.value ∷ []) ls ls' d,
        )
    go key_not_found = (c, refl, refl, (refl, refl, refl, refl))
    go _ = (c, refl, refl, (refl, refl, refl, refl))

-- For a coherent libstore that can reach the owners of its keys, and that holds no empty list for the
-- key in its cache, Get returns and leaves it coherent: it gives the first value in the cache and
-- sends nothing, or it sends one request to the owner of the key and gives what the reply to it
-- stands for, an error where the call fails.
pub get-Answered :
    (env : LibEnv) (key : Bytes) (answer : Call → Option GetReply) (ls : Libstore)
    → IsCoherent ls
    → IsRouted ls
    → ((a : Bytes) → env.dials a ≡ true)
    → lookup key ls.cache ≢ some []
    → Returns (get env key answer ls) (
        Answered ls key
          (λ w. get_call (query_of key w ls))
          (λ values. State.ok (first_value values))
          (λ call. value_result key (answer call)))
unfolding get
get-Answered env key answer ls c r a filled =
    Returns-bind (begin_query env key ls) _ (Begins key ls) _ (begin_query-Begins env key ls c) go
  where
    go :
        (out : Libstore × Begun)
        → Begins key ls out
        → Returns
            (elim out.1 as (λ x. Outcome (Finished Bytes)) [
              | cached values ↦
                  index (get_elem? values 0) >>= λ value. finish out.0 (State.ok value) []
              | ask want_lease rec ↦ get_storage_server env key out.0 >>= λ (cli, ls').
                  let call = get_call (query_of key want_lease ls') in
                  end_get env key want_lease rec (answer call) ((cli, call) ∷ []) ls'
            ])
            (Answered ls key
              (λ w. get_call (query_of key w ls))
              (λ values. State.ok (first_value values))
              (λ call. value_result key (answer call)))
    go (ls', cached []) b = absurd (filled b.4)
    go (ls', cached (v ∷ vs)) b = (b.0, inl (v ∷ vs, b.4, refl, refl))
    go (ls', ask w rec) b =
        Returns-bind (get_storage_server env key ls') _ (Ready ls key rec) _
          (asked-Ready env key w rec ls ls' r a b)
          (λ (cli, ls'') t.
            let call = get_call (query_of key w ls'') in
            Returns-map (end_get env key w rec (answer call) ((cli, call) ∷ []) ls'')
              (λ f e. (e.0, inr (cli, w, t.3.0, t.3.1, t.3.2, rw (← t.2 w) e.1, rw (← t.2 w) e.2)))
              (end_get-result env key w rec (answer call) ((cli, call) ∷ []) ls'' t.0 t.1))
