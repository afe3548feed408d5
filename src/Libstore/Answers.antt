-- ===== src/Libstore/Answers.antt =====
-- src/libstore/libstore_impl.go: `Get` and `GetList` as a whole, where nothing comes between the two
-- parts.
use simple_twitter.Common.{
  Returns-result, ℕ, ◌≡◌, ◌⊎◌, inl, inr, refl, ◌∙◌, sym, ap, Bool, true, Option, none, some, List,
  [], ◌∷◌, Outcome, ◌>>=◌, Returns, Returns-map, Returns-bind,
}
use simple_twitter.Common.Order.{Bytes, bytes_order, nat_order}
use simple_twitter.Common.Map.{lookup}
use simple_twitter.StorageServer.Proto.{Status, ok, key_not_found, GetListReply}
use simple_twitter.StorageServer.State.{Client}
use simple_twitter.Libstore.State.{
  Libstore, LibEnv, Result, call_failed, unknown_reply, should_not_be_reached,
}
use simple_twitter.Libstore.State
use simple_twitter.Libstore.Cache.{Begun, cached, ask, begin_query, end_query}
use simple_twitter.Libstore.Requests.{
  Call, get_list_call, Finished, finish, query_of, get_storage_server, end_get_list, get_list,
}
use simple_twitter.Libstore.Coherence.{IsCoherent}
use simple_twitter.Libstore.Keeps.{Begins, begin_query-Begins}
use simple_twitter.Libstore.Ends.{MayEnd, SamePlace, end_query-Ends, end_query-SamePlace}
use simple_twitter.Libstore.Routing.{IsRouted, Owns, get_storage_server-Reaches}

-- What a reply to GetList means.
abbrev pub list_result : Bytes → Option GetListReply → Result (List Bytes)
list_result key none = State.err call_failed
list_result key (some reply) = elim reply.status [
  | ok ↦ State.ok reply.value
  | key_not_found ↦ State.err (State.key_not_found key)
  | _ ↦ State.err unknown_reply
]

pub end_get_list-result :
    (env : LibEnv) (key : Bytes) (want_lease : Bool) (rec : Option ℕ) (reply : Option GetListReply)
    (sent : List (Client × Call)) (ls : Libstore)
    → IsCoherent ls
    → MayEnd key ls rec
    → Returns (end_get_list env key want_lease rec reply sent ls) (λ f.
      IsCoherent f.libstore
      × (f.result ≡ list_result key reply)
      × (f.sent ≡ sent)
      × SamePlace ls f.libstore)
unfolding end_get_list
end_get_list-result env key w rec none sent ls c s = (c, refl, refl, (refl, refl, refl, refl))
end_get_list-result env key w rec (some reply) sent ls c s = go reply.status
  where
    go :
        (status : Status)
        → Returns
            (elim status as (λ x. Outcome (Finished (List Bytes))) [
              | ok ↦ end_query env key w rec reply.lease reply.value ls >>= λ ls'.
                  finish ls' (State.ok reply.value) sent
              | key_not_found ↦ finish ls (State.err (State.key_not_found key)) sent
              | _ ↦ finish ls (State.err unknown_reply) sent
            ])
            (λ f.
              IsCoherent f.libstore
              × (f.result ≡ elim status as (λ x. Result (List Bytes)) [
                | ok ↦ State.ok reply.value
                | key_not_found ↦ State.err (State.key_not_found key)
                | _ ↦ State.err unknown_reply
              ])
              × (f.sent ≡ sent)
              × SamePlace ls f.libstore)
    go ok =
        let (ls', d, e) =
          Returns-result (end_query env key w rec reply.lease reply.value ls) _
            (end_query-Ends env key w rec reply.lease reply.value ls c s) in
        rw d (e.0, refl, refl, end_query-SamePlace env key w rec reply.lease reply.value ls ls' d)
    go key_not_found = (c, refl, refl, (refl, refl, refl, refl))
    go _ = (c, refl, refl, (refl, refl, refl, refl))

pub connected-IsCoherent :
    (ls ls' : Libstore) → IsCoherent ls → ls' ≡ record ls { conns = ls'.conns } → IsCoherent ls'
connected-IsCoherent ls ls' c e = rw e (record {
  placed = c.placed;
  recorded = c.recorded;
  granted = c.granted;
  unshared = c.unshared;
})

pub moved-IsRouted :
    (ls ls' : Libstore) → IsRouted ls → ls' ≡ record ls { heap = ls'.heap } → IsRouted ls'
moved-IsRouted ls ls' r e =
    rw e (record { sorted = r.sorted; used = r.used; named = r.named; dialled = r.dialled })

-- The record that the first part found may be used by the second, if nothing comes between them.
pub found-MayEnd :
    (key : Bytes) (ls : Libstore) (rec : Option ℕ)
    → IsCoherent ls
    → rec ≡ lookup key ls.records
    → MayEnd key ls rec
found-MayEnd key ls rec c fits ref e =
    let at : lookup key ls.records ≡ some ref = sym fits ∙ e in
    let (r, found, used) = c.placed key ref at in
    ((r, found), (λ k there. c.unshared k key ref there at), (ref, at))

-- How Get and GetList end: with the values of the cache and no request, or with one request to the
-- owner of the key, and the result that its reply stands for.
abbrev pub Answered :
    {A : Type 0}
    → Libstore
    → Bytes
    → (Bool → Call)
    → (List Bytes → Result A)
    → (Call → Result A)
    → Finished A
    → Type 0
Answered ls key call of_cache of_reply f =
    IsCoherent f.libstore
    × (((values : List Bytes) × (lookup key ls.cache ≡ some values)
          × (f.result ≡ of_cache values)
          × (f.sent ≡ []))
        ⊎ ((cli : Client) × (want_lease : Bool) × (id : ℕ) × (lookup id ls.nodes ≡ some cli.address)
            × Owns ls key id
            × (f.result ≡ of_reply (call want_lease))
            × (f.sent ≡ (cli, call want_lease) ∷ [])))

-- The request of a query is on its way, and its reply may be used.
abbrev pub Ready : Libstore → Bytes → Option ℕ → Client × Libstore → Type 0
Ready ls key rec (cli, ls') =
    IsCoherent ls'
    × MayEnd key ls' rec
    × ((w : Bool) → query_of key w ls' ≡ query_of key w ls)
    × ((id : ℕ) × (lookup id ls.nodes ≡ some cli.address) × Owns ls key id)

pub asked-Ready :
    (env : LibEnv) (key : Bytes) (want_lease : Bool) (rec : Option ℕ) (ls ls' : Libstore)
    → IsRouted ls
    → ((a : Bytes) → env.dials a ≡ true)
    → Begins key ls (ls', ask want_lease rec)
    → Returns (get_storage_server env key ls') (Ready ls key rec)
asked-Ready env key w rec ls ls' r a b =
    Returns-map (get_storage_server env key ls')
      (λ (cli, ls'') t.
        let (id, named, owns) = t.2 in
        let c = connected-IsCoherent ls' ls'' b.0 t.1 in
        let table : ls''.records ≡ ls.records = ap (λ x. x.records) t.1 ∙ b.2 in
        let host : ls''.host_port ≡ ls.host_port =
          ap (λ x. x.host_port) t.1 ∙ ap (λ x. x.host_port) b.5 in
        (
          c,
          found-MayEnd key ls'' rec c (b.4 ∙ ap (lookup key) (sym table)),
          (λ w'. rw host refl),
          (
            id,
            ap (λ x. lookup id x.nodes) (sym b.5) ∙ named,
            (λ ss same. owns ss (same ∙ ap (λ x. x.ring) (sym b.5))),
          ),
        ))
      (get_storage_server-Reaches env key ls' (moved-IsRouted ls ls' r b.5) a)

-- For a coherent libstore that can reach the owners of its keys, GetList returns and leaves it
-- coherent: it gives the values of the cache and sends nothing, or it sends one request to the owner
-- of the key and gives what the reply to it stands for, an error where the call fails.
pub get_list-Answered :
    (env : LibEnv) (key : Bytes) (answer : Call → Option GetListReply) (ls : Libstore)
    → IsCoherent ls
    → IsRouted ls
    → ((a : Bytes) → env.dials a ≡ true)
    → Returns (get_list env key answer ls) (
        Answered ls key
          (λ w. get_list_call (query_of key w ls))
          State.ok
          (λ call. list_result key (answer call)))
unfolding get_list
get_list-Answered env key answer ls c r a =
    Returns-bind (begin_query env key ls) _ (Begins key ls) _ (begin_query-Begins env key ls c) go
  where
    go :
        (out : Libstore × Begun)
        → Begins key ls out
        → Returns
            (elim out.1 as (λ x. Outcome (Finished (List Bytes))) [
              | cached values ↦ finish out.0 (State.ok values) []
              | ask want_lease rec ↦ get_storage_server env key out.0 >>= λ (cli, ls').
                  let call = get_list_call (query_of key want_lease ls') in
                  end_get_list env key want_lease rec (answer call) ((cli, call) ∷ []) ls'
            ])
            (Answered ls key
              (λ w. get_list_call (query_of key w ls))
              State.ok
              (λ call. list_result key (answer call)))
    go (ls', cached values) b = (b.0, inl (values, b.4, refl, refl))
    go (ls', ask w rec) b =
        Returns-bind (get_storage_server env key ls') _ (Ready ls key rec) _
          (asked-Ready env key w rec ls ls' r a b)
          (λ (cli, ls'') t.
            let call = get_list_call (query_of key w ls'') in
            Returns-map (end_get_list env key w rec (answer call) ((cli, call) ∷ []) ls'')
              (λ f e. (e.0, inr (cli, w, t.3.0, t.3.1, t.3.2, rw (← t.2 w) e.1, rw (← t.2 w) e.2)))
              (end_get_list-result env key w rec (answer call) ((cli, call) ∷ []) ls'' t.0 t.1))
