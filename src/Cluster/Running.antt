-- ===== src/Cluster/Running.antt =====
-- A cluster whose servers have divided the keys, and what an operation does to all keys at once.
use simple_twitter.Common.{
  ℕ, suc, ◌≡◌, ◌≢◌, refl, sym, ap, ◌∙◌, true, Option, some, Outcome, done, ◌>>=◌, List, Returns,
  Returns-result, Bool-cases, inl, inr, arith,
}
use simple_twitter.Common.Order.{Bytes, bytes_eqb, bytes_eqb_iff, bytes_order, nat_order}
use simple_twitter.Common.Map.{lookup}
use simple_twitter.Text.Split.{Lacks}
use simple_twitter.StorageServer.State.{StorageServer, Env, Revocation, key_range_contains}
use simple_twitter.StorageServer.Invariant.{IsWellFormed}
use simple_twitter.StorageServer.Service.{
  Store, Request, get_request, get_list_request, put_request, append_request, remove_request,
  delete_request, Reply, key_of, perform_own, handle,
}
use simple_twitter.StorageServer.Service.Refines.{
  contents, IsFair, HasPlainHost, Follows, handle_own,
}
use simple_twitter.Libstore.State.{Libstore, Result}
use simple_twitter.Slices.{has}
use simple_twitter.Libstore.Requests.{Call, Finished, or_no_address}
use simple_twitter.Libstore.Routing.{search_ring-found}
use simple_twitter.Cluster.{
  Cluster, host_of, request_of, set_server, exchange, exchange_all, read_reply, value_or_error,
  concluded, run_method,
}
use simple_twitter.Cluster.Asks.{KeepsPlace, IsPlain, Asks}

-- The libstore reaches the servers, and the server that gets the requests for a key is well-formed
-- and takes the key for its own.
pub record IsRunning (c : Cluster) : Type 0 where
  pub plain : IsPlain c.libstore
  pub address : Lacks b'~' c.libstore.host_port
  pub kept : (key : Bytes) → IsWellFormed (c.servers (host_of c.libstore key))
  pub owned :
      (key : Bytes) → key_range_contains (c.servers (host_of c.libstore key)) key ≡ done true

-- What all servers together hold.
abbrev pub contents_of : Cluster → Store
contents_of c key = contents (c.servers (host_of c.libstore key)) key

-- A request looks at its own key alone, and changes no other.
perform_own-local :
    (request : Request) (store store' : Store)
    → store (key_of request) ≡ store' (key_of request)
    → ((perform_own request store).1 ≡ (perform_own request store').1)
      × ((k : Bytes)
          → store k ≡ store' k
          → (perform_own request store).0 k ≡ (perform_own request store').0 k)
      × ((k : Bytes) → k ≢ key_of request → (perform_own request store).0 k ≡ store k)
perform_own-local (get_request args) store store' e = (rw e refl, (λ k h. h), (λ k h. refl))
perform_own-local (get_list_request args) store store' e = (rw e refl, (λ k h. h), (λ k h. refl))
perform_own-local (put_request args) store store' e =
    (refl, (λ k h. rw h refl), (λ k h. ground (arith, bytes_eqb_iff args.key k)))
perform_own-local (append_request args) store store' e =
    (rw e refl, (λ k h. rw (e, h) refl), (λ k h. ground (arith, bytes_eqb_iff args.key k)))
perform_own-local (remove_request args) store store' e =
    (rw e refl, (λ k h. rw (e, h) refl), (λ k h. ground (arith, bytes_eqb_iff args.key k)))
perform_own-local (delete_request key) store store' e =
    (rw e refl, (λ k h. rw (e, h) refl), (λ k h. ground (arith, bytes_eqb_iff key k)))

key_range_contains-same :
    (ss ss' : StorageServer) (key : Bytes)
    → ss'.members ≡ ss.members
    → ss'.node_id ≡ ss.node_id
    → key_range_contains ss' key ≡ key_range_contains ss key
unfolding key_range_contains
key_range_contains-same ss ss' key m n = rw (m, n) refl

host_of-same :
    (ls ls' : Libstore)
    → ls'.members ≡ ls.members
    → (key : Bytes) → host_of ls' key ≡ host_of ls key
unfolding host_of
host_of-same ls ls' m key = rw m refl

module _ (env : Env) (fair : IsFair env) (c : Cluster) (run : IsRunning c) (call : Call)
    (plain : HasPlainHost (request_of call)) where
  abbrev host : Bytes
  host = host_of c.libstore (key_of (request_of call))

  -- The server of the key answers.
  exchanged :
      (ss : StorageServer) × (reply : Reply) × (calls : List Revocation) × (exchange env host call
          c.servers
        ≡ done (reply, set_server host ss c.servers))
      × Follows
          (c.servers host)
          (perform_own (request_of call) (contents (c.servers host)))
          (record { server = ss; reply = reply; calls = calls })
  unfolding exchange
  exchanged =
      let key = key_of (request_of call) in
      let (a, d, f) = Returns-result (handle env (request_of call) (c.servers host)) _ (
        handle_own env fair (c.servers host) (run.kept key) (request_of call) plain
          (run.owned key)) in
      (a.server, a.reply, a.calls, rw d refl, f)

  -- After the request, with the libstore in any state that keeps its place.
  abbrev after : Libstore → (Bytes → StorageServer) → Cluster
  after ls servers = record { libstore = ls; servers = servers; count = suc c.count }

  abbrev expected : Store × Reply
  expected = perform_own (request_of call) (contents_of c)

  moved-IsRunning :
      (ls : Libstore) (ss : StorageServer) (reply : Reply) (calls : List Revocation)
      → KeepsPlace c.libstore ls
      → Follows
          (c.servers host)
          (perform_own (request_of call) (contents (c.servers host)))
          (record { server = ss; reply = reply; calls = calls })
      → IsRunning (after ls (set_server host ss c.servers))
  moved-IsRunning ls ss reply calls p f =
      let same = host_of-same c.libstore ls p.1 in
      record {
        plain = p.0;
        address = rw p.2 run.address;
        kept = λ k. rw (same k) (elim (Bool-cases (bytes_eqb host (host_of c.libstore k))) [
          | inl here ↦ rw here f.well_formed
          | inr there ↦ rw there (run.kept k)
        ]);
        owned = λ k. rw (same k) (elim (Bool-cases (bytes_eqb host (host_of c.libstore k))) [
          | inl here ↦ rw here (
              key_range_contains-same (c.servers host) ss k f.members f.node_id
              ∙ rw ((bytes_eqb_iff host (host_of c.libstore k)).0 here) (run.owned k))
          | inr there ↦ rw there (run.owned k)
        ]);
      }

  moved-contents :
      (ls : Libstore) (ss : StorageServer) (reply : Reply) (calls : List Revocation)
      → KeepsPlace c.libstore ls
      → Follows
          (c.servers host)
          (perform_own (request_of call) (contents (c.servers host)))
          (record { server = ss; reply = reply; calls = calls })
      → (k : Bytes) → contents_of (after ls (set_server host ss c.servers)) k ≡ expected.0 k
  moved-contents ls ss reply calls p f k =
      let local =
        perform_own-local (request_of call) (contents (c.servers host)) (contents_of c) refl in
      let local' = perform_own-local (request_of call) (contents_of c) (contents_of c) refl in
      rw (host_of-same c.libstore ls p.1 k)
        (elim (Bool-cases (bytes_eqb host (host_of c.libstore k))) [
          | inl here ↦
              let same : host ≡ host_of c.libstore k =
                (bytes_eqb_iff host (host_of c.libstore k)).0 here in
              rw here
                (ap (λ m. m k) f.contents_eq ∙ local.1 k (ap (λ h. contents (c.servers h) k) same))
          | inr there ↦ rw there (
              sym (
                local'.2 k (λ e.
                  ground
                    (arith, ap (host_of c.libstore) e, bytes_eqb_iff host (host_of c.libstore k)))))
        ])

-- After an operation with this request.
pub record Ran {A : Type 0} (c : Cluster) (request : Request) (result : Option A)
    (out : Option A × Cluster) : Type 0 where
  pub gives : out.0 ≡ result
  pub running : IsRunning out.1
  pub holds : (k : Bytes) → contents_of out.1 k ≡ (perform_own request (contents_of c)).0 k

-- An operation through a method of the libstore that asks with this call: it gives what the server's
-- reply stands for, the cluster goes on running, and the contents are those that the specification of
-- the request gives for all servers together.
pub run_method-Runs :
    {A R : Type 0} (env : Env) (c : Cluster) (call : Call) (pick : Reply → Option R)
    (method : (Call → Option R) → Libstore → Outcome (Finished A)) (of_answer : Option R → Result A)
    → IsFair env
    → IsRunning c
    → HasPlainHost (request_of call)
    → ((answer : Call → Option R)
        → Returns
            (method answer c.libstore)
            (Asks c.libstore (key_of (request_of call)) call (of_answer (answer call))))
    → Returns (run_method env (key_of (request_of call)) pick method c) (
        Ran c
          (request_of call)
          (value_or_error (of_answer (pick (perform_own (request_of call) (contents_of c)).1))))
unfolding run_method exchange_all
run_method-Runs env c call pick method of_answer fair run plain asks =
    let (ss, reply, calls, e, f) = exchanged env fair c run call plain in
    let key = key_of (request_of call) in
    let answer =
      λ (call : Call). read_reply pick (exchange env (host_of c.libstore key) call c.servers) in
    let (g, d, (keeps, replied, (cli, at, sent))) =
      Returns-result (method answer c.libstore) _ (asks answer) in
    let h = host_of c.libstore key in
    let moved : exchange_all env g.sent c.servers ≡ done (set_server h ss c.servers) =
      ap (λ calls. exchange_all env calls c.servers) sent
      ∙ ap (λ x. exchange env x call c.servers >>= λ (reply, servers). done servers) at
      ∙ ap (λ x. x >>= λ (reply, servers). done servers) e in
    let local = perform_own-local (request_of call) (contents (c.servers h)) (contents_of c) refl in
    let whole : run_method env key pick method c
        ≡ done (
          value_or_error g.result,
          record {
            libstore = g.libstore;
            servers = set_server h ss c.servers;
            count = suc c.count;
          },
        ) =
      ap (λ x. x >>= concluded env c) d
      ∙ ap
          (λ x. x >>= λ servers. done (
            value_or_error g.result,
            record { libstore = g.libstore; servers = servers; count = suc c.count },
          ))
          moved in
    rw whole (record {
      gives =
          ap value_or_error
            (replied ∙ ap of_answer (ap (read_reply pick) e ∙ ap pick (f.reply_eq ∙ local.0)));
      running = moved-IsRunning env fair c run call plain g.libstore ss reply calls keeps f;
      holds = moved-contents env fair c run call plain g.libstore ss reply calls keeps f;
    })

-- A libstore without leases that can reach the servers, in front of well-formed servers that stand at
-- the addresses of its ring, each with this ring and with its own identifier, is a cluster that runs.
pub formed-IsRunning :
    (ls : Libstore) (servers : Bytes → StorageServer)
    → IsPlain ls
    → Lacks b'~' ls.host_port
    → ((id : ℕ) (a : Bytes)
        → has id ls.ring ≡ true
        → lookup id ls.nodes ≡ some a
        → IsWellFormed (servers a) × ((servers a).ring ≡ ls.ring) × ((servers a).node_id ≡ id))
    → IsRunning (record { libstore = ls; servers = servers; count = 0 })
unfolding host_of
formed-IsRunning ls servers p h placed =
    let owner : (key : Bytes)
        → IsWellFormed (servers (host_of ls key))
          × (key_range_contains (servers (host_of ls key)) key ≡ done true) =
      λ key.
        let (id, found, member, owns) = search_ring-found ls key p.routed in
        let (a, at) = p.routed.named id member in
        let host : host_of ls key ≡ a = rw (found, host_of) (ap or_no_address at) in
        let (well, ring, own) = placed id a member at in
        rw host (well, owns (servers a) ring ∙ ap done (ground (arith, own))) in
    record { plain = p; address = h; kept = λ key. (owner key).0; owned = λ key. (owner key).1 }
