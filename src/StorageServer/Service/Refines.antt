-- ===== src/StorageServer/Service/Refines.antt =====
-- The server refines the abstract store.
use mathlib.Core.Path.{fun_ext}
use simple_twitter.Common.{
  ◌≡◌, refl, Bool, true, false, Option, List, [], ◌∷◌, Outcome, done, Returns, Returns-result,
  Returns-bind, Bool-cases, inl, inr, ap, ◌∙◌, ◌>>=◌,
}
use simple_twitter.Common.Int.{IsInt64}
use simple_twitter.Common.Order.{Bytes, bytes_order, nat_order}
use simple_twitter.Common.Map.{lookup}
use simple_twitter.Text.Split.{Lacks}
use simple_twitter.StorageServer.Proto.{GetArgs, Status}
use simple_twitter.StorageServer.State.{StorageServer, Env, key_range_contains}
use simple_twitter.StorageServer.Leases.Revoke.{AllAnswer}
use simple_twitter.StorageServer.Handlers.{
  Answer, get, get_list, put, delete_key, append_to_list, remove_from_list,
}
use simple_twitter.StorageServer.Invariant.{IsWellFormed}
use simple_twitter.StorageServer.Effects.{Effect, Serves}
use simple_twitter.StorageServer.Reads.{Reads, get-Reads, get_list-Reads}
use simple_twitter.StorageServer.Refinement.{
  put-Serves, delete_key-Serves, append_to_list-Serves, remove_from_list-Serves,
}
use simple_twitter.StorageServer.Service.{
  Request, get_request, get_list_request, put_request, append_request, remove_request,
  delete_request, with_reply, Reply, status_reply, key_of, handle, serve, Store, by_effect,
  perform_own, refusal, perform, perform_all,
}

-- The map from keys to values that a server holds.
abbrev pub contents : StorageServer → Store
contents ss key = lookup key ss.storage

-- The server answers for just these keys.
abbrev pub Owns : StorageServer → (Bytes → Bool) → Type 0
Owns ss owns = (key : Bytes) → key_range_contains ss key ≡ done (owns key)

-- The callback address of a read can be written into a lease record.
abbrev pub HasPlainHost : Request → Type 0
HasPlainHost (get_request args) = Lacks b'~' args.host_port
HasPlainHost (get_list_request args) = Lacks b'~' args.host_port
HasPlainHost _ = Unit

-- The outside that a handler needs: the hosts answer, and the clock fits in 64 bits.
pub record IsFair (env : Env) : Type 0 where
  pub reachable : AllAnswer env
  pub now : IsInt64 (env.clock 0)

-- After one request: the invariant, the same ring, the specified contents and the specified reply.
pub record Follows (ss : StorageServer) (expected : Store × Reply) (a : Answer Reply) : Type 0 where
  pub well_formed : IsWellFormed a.server
  pub members : a.server.members ≡ ss.members
  pub node_id : a.server.node_id ≡ ss.node_id
  pub contents_eq : contents a.server ≡ expected.0
  pub reply_eq : a.reply ≡ expected.1

module _ (env : Env) (fair : IsFair env) (ss : StorageServer) (w : IsWellFormed ss) where
  from_Serves :
      (key : Bytes) (e : Effect) (m : Outcome (Answer Status))
      → Returns m (Serves env ss key (w.leases key).0 e)
      → Returns (m >>= with_reply status_reply) (Follows ss (by_effect key e (contents ss)))
  from_Serves key e m h =
      let (a, d, s) = Returns-result m _ h in
      rw d (record {
        well_formed = s.well_formed;
        members = s.members;
        node_id = s.node_id;
        contents_eq = fun_ext s.storage;
        reply_eq = ap status_reply s.reply;
      })

  from_Reads :
      {R : Type 0} (f : R → Reply) (args : GetArgs) (old : Option (List Bytes)) (reply : R)
      (m : Outcome (Answer R))
      → Returns m (Reads env args (w.leases args.key).0 ss old reply)
      → Returns (m >>= with_reply f) (Follows ss (contents ss, f reply))
  from_Reads f args old reply m h =
      let (a, d, s) = Returns-result m _ h in
      rw d (record {
        well_formed = s.well_formed;
        members = s.members;
        node_id = s.node_id;
        contents_eq = fun_ext (λ k. ap (lookup k) s.storage);
        reply_eq = ap f s.replied;
      })

  pub handle_own :
      (request : Request)
      → HasPlainHost request
      → key_range_contains ss (key_of request) ≡ done true
      → Returns (handle env request ss) (Follows ss (perform_own request (contents ss)))
  unfolding handle
  handle_own (get_request args) h own =
      from_Reads _ args _ _ _ (get-Reads env args ss _ w (w.leases args.key).1 h fair.now own)
  handle_own (get_list_request args) h own =
      from_Reads _ args _ _ _ (get_list-Reads env args ss _ w (w.leases args.key).1 h fair.now own)
  handle_own (put_request args) h own =
      from_Serves _ _ _
        (put-Serves env ss args.key _ w (w.leases args.key).1 fair.reachable own args.value)
  handle_own (append_request args) h own = from_Serves _ _ _ (
      append_to_list-Serves env ss args.key _ w (w.leases args.key).1 fair.reachable own args.value)
  handle_own (remove_request args) h own = from_Serves _ _ _ (
      remove_from_list-Serves env ss args.key _ w (w.leases args.key).1 fair.reachable own
        args.value)
  handle_own (delete_request key) h own =
      from_Serves _ _ _ (delete_key-Serves env ss key _ w (w.leases key).1 fair.reachable own)

-- A request for a key that is not the server's own is refused with WrongServer, whatever the server
-- meets outside, and it changes nothing and sends nothing.
pub handle_wrong_server :
    (env : Env) (request : Request) (ss : StorageServer)
    → key_range_contains ss (key_of request) ≡ done false
    → handle env request ss ≡ done (record { server = ss; reply = refusal request; calls = [] })
unfolding handle get get_list put append_to_list remove_from_list delete_key
handle_wrong_server env (get_request args) ss h = rw h
handle_wrong_server env (get_list_request args) ss h = rw h
handle_wrong_server env (put_request args) ss h = rw h
handle_wrong_server env (append_request args) ss h = rw h
handle_wrong_server env (remove_request args) ss h = rw h
handle_wrong_server env (delete_request key) ss h = rw h

Owns-transfer :
    (ss ss' : StorageServer) (owns : Bytes → Bool)
    → ss'.members ≡ ss.members
    → ss'.node_id ≡ ss.node_id
    → Owns ss owns
    → Owns ss' owns
unfolding key_range_contains
Owns-transfer ss ss' owns m n h key = rw (m, n) (h key)

pub handle-Follows :
    (env : Env) (request : Request) (ss : StorageServer) (owns : Bytes → Bool)
    → IsFair env
    → HasPlainHost request
    → IsWellFormed ss
    → Owns ss owns
    → Returns (handle env request ss) (Follows ss (perform owns request (contents ss)))
unfolding perform
handle-Follows env request ss owns fair host w own = elim (Bool-cases (owns (key_of request))) [
  | inl mine ↦ rw mine (handle_own env fair ss w request host (own (key_of request) ∙ ap done mine))
  | inr other ↦
      rw (other, handle_wrong_server env request ss (own (key_of request) ∙ ap done other))
        (record {
          well_formed = w;
          members = refl;
          node_id = refl;
          contents_eq = refl;
          reply_eq = refl;
        })
]

abbrev pub AreServed : List (Env × Request) → Type 0
AreServed [] = Unit
AreServed ((env, request) ∷ rest) = IsFair env × HasPlainHost request × AreServed rest

abbrev pub requests : List (Env × Request) → List Request
requests [] = []
requests ((env, request) ∷ rest) = request ∷ requests rest

-- After a sequence of requests: the invariant, and what the abstract store says.
pub record Performs (expected : Store × List Reply) (result : StorageServer × List Reply)
    : Type 0 where
  pub well_formed : IsWellFormed result.0
  pub contents_eq : contents result.0 ≡ expected.0
  pub replies_eq : result.1 ≡ expected.1

-- From a well-formed state, for every sequence of requests, where every host can be reached, the
-- clock fits in 64 bits and callback addresses hold no tilde: the server returns, with no panic and
-- no exit, gives the replies that the abstract store gives, holds the same contents at the end, and
-- is well-formed again.
pub serve-Performs :
    (script : List (Env × Request)) (ss : StorageServer) (owns : Bytes → Bool)
    → AreServed script
    → IsWellFormed ss
    → Owns ss owns
    → Returns (serve script ss) (Performs (perform_all owns (requests script) (contents ss)))
unfolding serve perform_all
serve-Performs [] ss owns fair w own = record {
  well_formed = w;
  contents_eq = refl;
  replies_eq = refl;
}
serve-Performs ((env, request) ∷ rest) ss owns (fair, host, more) w own =
    Returns-bind (handle env request ss) _ (Follows ss (perform owns request (contents ss))) _
      (handle-Follows env request ss owns fair host w own)
      λ a f.
        Returns-bind (serve rest a.server) _
          (Performs (perform_all owns (requests rest) (contents a.server))) _
          (serve-Performs rest a.server owns more f.well_formed
            (Owns-transfer ss a.server owns f.members f.node_id own))
          λ tail t.
            rw (← f.contents_eq, ← f.reply_eq)
              (record {
                well_formed = t.well_formed;
                contents_eq = t.contents_eq;
                replies_eq = ap (◌∷◌ a.reply) t.replies_eq;
              })
