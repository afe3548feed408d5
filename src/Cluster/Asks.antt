-- ===== src/Cluster/Asks.antt =====
-- In mode Never each method of the libstore sends one request, to the server of its key.
use simple_twitter.Common.{
  panic, fatal, Option-cases, inl, inr, ◌≡◌, refl, sym, ap, ◌∙◌, true, false, Option, [], ◌∷◌,
  Outcome, done, ◌>>=◌, Returns, Returns-map, Returns-bind,
}
use simple_twitter.Common.Order.{Bytes, bytes_order, nat_order}
use simple_twitter.Common.Map.{lookup}
use simple_twitter.StorageServer.Proto.{Status, GetReply, GetListReply}
use simple_twitter.StorageServer.State.{Client}
use simple_twitter.Libstore.State.{never, Libstore, LibEnv, Result}
use simple_twitter.Libstore.Cache.{ask, begin_query, begin_mode}
use simple_twitter.Libstore.Requests.{
  Call, get_call, get_list_call, put_call, append_call, remove_call, delete_call, Finished, finish,
  query_of, or_no_address, get_storage_server, get, get_list,
}
use simple_twitter.Libstore.Writes.{
  put, put_result, delete, delete_result, append_to_list, append_result, remove_from_list,
  remove_result,
}
use simple_twitter.Libstore.Coherence.{IsCoherent}
use simple_twitter.Libstore.Routing.{IsRouted, search_ring-found, get_storage_server-Reaches}
use simple_twitter.Libstore.Answers.{
  end_get_list-result, found-MayEnd, connected-IsCoherent, list_result,
}
use simple_twitter.Libstore.Values.{value_result, end_get-result}
use simple_twitter.Libstore.Ends.{SamePlace}
use simple_twitter.Cluster.{host_of}

-- A libstore without leases that can reach the servers.
pub record IsPlain (ls : Libstore) : Type 0 where
  pub mode : ls.mode ≡ never
  pub coherent : IsCoherent ls
  pub routed : IsRouted ls

-- The servers and the own address stay.
abbrev pub KeepsPlace : Libstore → Libstore → Type 0
KeepsPlace ls ls' = IsPlain ls' × (ls'.members ≡ ls.members) × (ls'.host_port ≡ ls.host_port)

abbrev pub Asks : {A : Type 0} → Libstore → Bytes → Call → Result A → Finished A → Type 0
Asks ls key call result f =
    KeepsPlace ls f.libstore
    × (f.result ≡ result)
    × ((cli : Client) × (cli.address ≡ host_of ls key) × (f.sent ≡ (cli, call) ∷ []))

abbrev Located : Libstore → Bytes → Client × Libstore → Type 0
Located ls key (cli, ls') =
    KeepsPlace ls ls' × (ls'.records ≡ ls.records) × (cli.address ≡ host_of ls key)

Returns-both :
    {A : Type 0} (m : Outcome A) (P Q : A → Type 0)
    → Returns m P
    → Returns m Q
    → Returns m (λ a. P a × Q a)
Returns-both (done a) P Q p q = (p, q)
Returns-both panic P Q p q = p
Returns-both fatal P Q p q = p

module _ (env : LibEnv) (dials : (a : Bytes) → env.dials a ≡ true) where
  get_storage_server-address :
      (key : Bytes) (ls : Libstore)
      → IsRouted ls
      → Returns (get_storage_server env key ls) (λ (cli, ls'). cli.address ≡ host_of ls key)
  unfolding get_storage_server host_of
  get_storage_server-address key ls r =
      let (id, found, member, owns) = search_ring-found ls key r in
      let host : host_of ls key ≡ or_no_address (lookup id ls.nodes) = rw (found, host_of) refl in
      rw found (elim (Option-cases (lookup id ls.conns)) [
        | inl missing ↦
            rw (missing, Returns) (rw (dials (or_no_address (lookup id ls.nodes))) (sym host))
        | inr (cli, there) ↦
            rw (there, Returns) (sym (host ∙ ap or_no_address (r.dialled id cli there)))
      ])

  get_storage_server-Located :
      (key : Bytes) (ls : Libstore)
      → IsPlain ls
      → Returns (get_storage_server env key ls) (Located ls key)
  get_storage_server-Located key ls p =
      Returns-map (get_storage_server env key ls)
        (λ (cli, ls') (r, a). (
          (
            record {
              mode = ap (λ x. x.mode) r.1 ∙ p.mode;
              coherent = connected-IsCoherent ls ls' p.coherent r.1;
              routed = r.0;
            },
            ap (λ x. x.members) r.1,
            ap (λ x. x.host_port) r.1,
          ),
          ap (λ x. x.records) r.1,
          a,
        ))
        (Returns-both (get_storage_server env key ls) _ _
          (get_storage_server-Reaches env key ls p.routed dials)
          (get_storage_server-address key ls p.routed))

  -- A method that only sends a request.
  sends-Asks :
      {A : Type 0} (key : Bytes) (ls : Libstore) (call : Call) (result : Result A)
      → IsPlain ls
      → Returns
          (get_storage_server env key ls >>= λ (cli, ls'). finish ls' result ((cli, call) ∷ []))
          (Asks ls key call result)
  sends-Asks key ls call result p =
      Returns-bind (get_storage_server env key ls) _ _ _ (get_storage_server-Located key ls p)
        (λ (cli, ls') l. (l.0, refl, (cli, l.2, refl)))

  module _ (answer : Call → Option Status) (key value : Bytes) (ls : Libstore)
      (p : IsPlain ls) where
    pub put-Asks :
        let call = put_call (record { key = key; value = value }) in
        Returns (put env key value answer ls) (Asks ls key call (put_result (answer call)))
    unfolding put
    put-Asks = sends-Asks key ls _ _ p

    pub append_to_list-Asks :
        let call = append_call (record { key = key; value = value }) in
        Returns
          (append_to_list env key value answer ls)
          (Asks ls key call (append_result key value (answer call)))
    unfolding append_to_list
    append_to_list-Asks = sends-Asks key ls _ _ p

    pub remove_from_list-Asks :
        let call = remove_call (record { key = key; value = value }) in
        Returns
          (remove_from_list env key value answer ls)
          (Asks ls key call (remove_result key value (answer call)))
    unfolding remove_from_list
    remove_from_list-Asks = sends-Asks key ls _ _ p

  pub delete-Asks :
      (answer : Call → Option Status) (key : Bytes) (ls : Libstore)
      → IsPlain ls
      → Returns
          (delete env key answer ls)
          (Asks ls key (delete_call key) (delete_result key (answer (delete_call key))))
  unfolding delete
  delete-Asks answer key ls p = sends-Asks key ls _ _ p

  begin_query-never :
      (key : Bytes) (ls : Libstore)
      → ls.mode ≡ never
      → begin_query env key ls ≡ done (ls, ask false (lookup key ls.records))
  unfolding begin_query begin_mode
  begin_query-never key ls e = rw e refl

  -- The reply is used in the state in which the request was sent.
  replied-Asks :
      {A : Type 0} (key : Bytes) (ls ls' : Libstore) (cli : Client) (call : Call)
      (result : Result A) (m : Outcome (Finished A))
      → Located ls key (cli, ls')
      → Returns m (λ f.
        IsCoherent f.libstore
        × (f.result ≡ result)
        × (f.sent ≡ (cli, call) ∷ [])
        × SamePlace ls' f.libstore)
      → Returns m (Asks ls key call result)
  replied-Asks key ls ls' cli call result m ((p, members, host), table, at) h =
      Returns-map m
        (λ f (c, r, sent, (mode, members', host', conns)). (
          (
            record {
              mode = mode ∙ p.mode;
              coherent = c;
              routed = record {
                sorted = rw members' p.routed.sorted;
                used = rw members' p.routed.used;
                named = rw members' p.routed.named;
                dialled = rw (members', conns) p.routed.dialled;
              };
            },
            members' ∙ members,
            host' ∙ host,
          ),
          r,
          (cli, at, sent),
        ))
        h

  module _ (key : Bytes) (ls : Libstore) (p : IsPlain ls) where
    pub get-Asks :
        (answer : Call → Option GetReply)
        → let call = get_call (query_of key false ls) in
          Returns (get env key answer ls) (Asks ls key call (value_result key (answer call)))
    unfolding get
    get-Asks answer = rw (begin_query-never key ls p.mode) (
        Returns-bind (get_storage_server env key ls) _ _ _ (get_storage_server-Located key ls p)
          (λ (cli, ls') l.
            let call = get_call (query_of key false ls') in
            let same : query_of key false ls' ≡ query_of key false ls = rw l.0.2 refl in
            let rec = lookup key ls.records in
            rw (← same) (
              replied-Asks key ls ls' cli call _ _ l (
                end_get-result env key false rec (answer call) ((cli, call) ∷ []) ls' l.0.0.coherent
                  (found-MayEnd key ls' rec l.0.0.coherent (ap (lookup key) (sym l.1)))))))

    pub get_list-Asks :
        (answer : Call → Option GetListReply)
        → let call = get_list_call (query_of key false ls) in
          Returns (get_list env key answer ls) (Asks ls key call (list_result key (answer call)))
    unfolding get_list
    get_list-Asks answer = rw (begin_query-never key ls p.mode) (
        Returns-bind (get_storage_server env key ls) _ _ _ (get_storage_server-Located key ls p)
          (λ (cli, ls') l.
            let call = get_list_call (query_of key false ls') in
            let same : query_of key false ls' ≡ query_of key false ls = rw l.0.2 refl in
            let rec = lookup key ls.records in
            rw (← same) (
              replied-Asks key ls ls' cli call _ _ l (
                end_get_list-result env key false rec (answer call) ((cli, call) ∷ []) ls'
                  l.0.0.coherent
                  (found-MayEnd key ls' rec l.0.0.coherent (ap (lookup key) (sym l.1)))))))
