-- ===== src/StorageServer/Service/Owner.antt =====
-- src/storageserver/storageserver_impl.go: how servers that share a ring divide the requests.
use simple_twitter.Common.{
  ℕ, ◌==◌, ◌≡◌, ◌≢◌, refl, sym, ap, ◌∙◌, true, false, List, [], arith, done, Returns, Returns-map,
  Option-cases, inl, inr,
}
use simple_twitter.Common.Order.{bytes_order, nat_order}
use simple_twitter.Search.Sorted.{IsSorted}
use simple_twitter.Slices.{has}
use simple_twitter.StorageServer.Proto.{Status, wrong_server}
use simple_twitter.StorageServer.State.{StorageServer, Env, key_range_contains}
use simple_twitter.StorageServer.Invariant.{IsWellFormed}
use simple_twitter.StorageServer.Membership.Agreement.{key_range_contains-one_owner}
use simple_twitter.StorageServer.Service.{
  Request, get_request, get_list_request, put_request, append_request, remove_request,
  delete_request, Reply, status_reply, get_replied, get_list_replied, key_of, handle, Store,
  perform_own, refusal,
}
use simple_twitter.StorageServer.Service.Refines.{
  contents, HasPlainHost, IsFair, Follows, handle_own, handle_wrong_server,
}

abbrev status_of : Reply → Status
status_of (status_reply status) = status
status_of (get_replied reply) = reply.status
status_of (get_list_replied reply) = reply.status

refusal-status : (request : Request) → status_of (refusal request) ≡ wrong_server
refusal-status (get_request args) = refl
refusal-status (get_list_request args) = refl
refusal-status (put_request args) = refl
refusal-status (append_request args) = refl
refusal-status (remove_request args) = refl
refusal-status (delete_request key) = refl

-- The store never replies WrongServer.
perform_own-status :
    (request : Request) (store : Store) → status_of (perform_own request store).1 ≢ wrong_server
perform_own-status (get_request args) store e = elim (Option-cases (store args.key)) [
  | inl missing ↦ ground (arith, missing, e)
  | inr (vs, there) ↦ ground (arith, there, e)
]
perform_own-status (get_list_request args) store e = elim (Option-cases (store args.key)) [
  | inl missing ↦ ground (arith, missing, e)
  | inr (vs, there) ↦ ground (arith, there, e)
]
perform_own-status (put_request args) store e = absurd cc
perform_own-status (append_request args) store e = ground arith
perform_own-status (remove_request args) store e = ground arith
perform_own-status (delete_request key) store e = elim (Option-cases (store key)) [
  | inl missing ↦ ground (arith, missing, e)
  | inr (vs, there) ↦ ground (arith, there, e)
]

-- Of well-formed servers that share an ascending ring with a server in it, each under its own
-- identifier, one that is in the ring serves a request, where all hosts answer, the clock fits in
-- 64 bits and the callback address holds no tilde: it does what the store does, and does not reply
-- WrongServer. Every other server, whatever it meets outside, replies WrongServer, stays as it is
-- and sends nothing.
pub handle-one_server :
    (env : Env) (request : Request) (ring : List ℕ) (servers : ℕ → StorageServer)
    → IsFair env
    → HasPlainHost request
    → IsSorted ring
    → ring ≢ []
    → ((id : ℕ)
        → IsWellFormed (servers id) × ((servers id).ring ≡ ring) × ((servers id).node_id ≡ id))
    → (owner : ℕ) × (has owner ring ≡ true)
      × Returns (handle env request (servers owner)) (λ a.
        Follows (servers owner) (perform_own request (contents (servers owner))) a
        × (a.reply ≢ refusal request))
      × ((id : ℕ) (env' : Env)
          → id ≢ owner
          → handle env' request (servers id)
            ≡ done (record { server = servers id; reply = refusal request; calls = [] }))
handle-one_server env request ring servers fair host s used placed =
    let (owner, member, owns) = key_range_contains-one_owner ring (key_of request) s used in
    let answers : (id : ℕ) → key_range_contains (servers id) (key_of request) ≡ done (id == owner) =
      λ id. owns (servers id) (placed id).1 ∙ ap (λ n. done (n == owner)) (placed id).2 in
    let mine : (owner == owner) ≡ true = ground arith in
    (
      owner,
      member,
      Returns-map (handle env request (servers owner))
          (λ a f. (
            f,
            λ e.
                perform_own-status request (contents (servers owner))
                  (ap status_of (sym f.reply_eq ∙ e) ∙ refusal-status request),
          ))
          (handle_own env fair (servers owner) (placed owner).0 request host
            (answers owner ∙ ap done mine)),
      (λ id env' n.
          let other : (id == owner) ≡ false = ground arith in
          handle_wrong_server env' request (servers id) (answers id ∙ ap done other)),
    )
