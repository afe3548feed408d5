-- ===== src/Libstore/Events.antt =====
-- src/libstore/libstore_impl.go: a libstore while many queries, revocations and rounds of the
-- recycler go on at once. A query holds the lock for its first part and again for its second, and
-- between them it waits for the storage server: here that is two events. The first one takes in what
-- `Get` and `GetList` do up to the request: the value out of the cache, or the connection, which the
-- source opens without the lock.
use simple_twitter.Common.{
  ℕ, zero, suc, ◌≡◌, none, some, List, [], ◌∷◌, get_elem?, All, index, Outcome, done, ◌>>=◌,
  some-injective, subst,
}
use simple_twitter.Common.Order.{Bytes, bytes_order}
use simple_twitter.StorageServer.Proto.{Lease}
use simple_twitter.Libstore.State.{Libstore, LibEnv}
use simple_twitter.Libstore.Cache.{
  Begun, cached, ask, begin_query, end_query, revoke_lease, recycle,
}
use simple_twitter.Libstore.Later.{Request}
use simple_twitter.Libstore.Requests.{get_storage_server}

-- A libstore and the queries that wait for a reply.
pub record Session : Type 0 where
  pub libstore : Libstore
  pub waiting : List Request

-- `replied i` is a reply with status OK to the query at place `i`, `failed i` any other end of it.
pub data Event : Type 0 where
  get_query list_query : Bytes → Event
  replied : (place : ℕ) → Lease → List Bytes → Event
  failed : (place : ℕ) → Event
  revoked : Bytes → Event
  recycled : Bytes → Event

abbrev pub remove {ℓ} : {A : Type ℓ} → ℕ → List A → List A
remove i [] = []
remove zero (x ∷ xs) = xs
remove (suc i) (x ∷ xs) = x ∷ remove i xs

-- A query with the values of the cache has ended, another waits for the reply to its request.
unfoldable pub await : LibEnv → Bytes → List Request → Libstore × Begun → Outcome Session
await env key waiting (ls, cached values) = done (record { libstore = ls; waiting = waiting })
await env key waiting (ls, ask want_lease rec) = get_storage_server env key ls >>= λ (cli, ls').
    done (record {
      libstore = ls';
      waiting = record { key = key; want_lease = want_lease; rec = rec } ∷ waiting;
    })

-- `result[0]`: what `Get` takes out of the cache.
unfoldable pub take_first : Libstore × Begun → Outcome (Libstore × Begun)
take_first (ls, cached values) =
    index (get_elem? values 0) >>= λ value. done (ls, cached (value ∷ []))
take_first (ls, ask want_lease rec) = done (ls, ask want_lease rec)

unfoldable pub perform : LibEnv → Event → Session → Outcome Session
unfolding await take_first
perform env (get_query key) s =
    begin_query env key s.libstore >>= λ out. take_first out >>= await env key s.waiting
perform env (list_query key) s = begin_query env key s.libstore >>= await env key s.waiting
perform env (replied i lease values) s = elim (get_elem? s.waiting i) [
  | none ↦ done s
  | some q ↦ end_query env q.key q.want_lease q.rec lease values s.libstore >>= λ ls.
      done (record { libstore = ls; waiting = remove i s.waiting })
]
perform env (failed i) s = done (record s { waiting = remove i s.waiting })
perform env (revoked key) s =
    revoke_lease key s.libstore >>= λ (ls, found). done (record s { libstore = ls })
perform env (recycled key) s =
    recycle (env.clock 0) key s.libstore >>= λ ls. done (record s { libstore = ls })

unfoldable pub run : List (LibEnv × Event) → Session → Outcome Session
unfolding perform
run [] s = done s
run ((env, event) ∷ events) s = perform env event s >>= run events

pub All-map {ℓ κ μ} :
    {A : Type ℓ} {P : A → Type κ} {Q : A → Type μ} (xs : List A)
    → ((x : A) → P x → Q x)
    → All P xs
    → All Q xs
All-map [] f h = tt
All-map (x ∷ xs) f h = (f x h.0, All-map xs f h.1)

pub All-remove {ℓ κ} :
    {A : Type ℓ} (P : A → Type κ) (i : ℕ) (xs : List A) → All P xs → All P (remove i xs)
All-remove P i [] h = tt
All-remove P zero (x ∷ xs) h = h.1
All-remove P (suc i) (x ∷ xs) h = (h.0, All-remove P i xs h.1)

pub All-at {ℓ κ} :
    {A : Type ℓ} (P : A → Type κ) (i : ℕ) (xs : List A) (x : A)
    → All P xs
    → get_elem? xs i ≡ some x
    → P x
All-at P i [] x h e = absurd cc
All-at P zero (y ∷ ys) x h e = subst P (some-injective y x e) h.0
All-at P (suc i) (y ∷ ys) x h e = All-at P i ys x h.1 e
