-- ===== src/Libstore/Requests.antt =====
-- src/libstore/libstore_impl.go: the methods of the libstore, and how it is made.
use simple_twitter.Common.{
  ℕ, ◌==◌, Bool, Option, none, some, List, [], ◌∷◌, length, get_elem?, Outcome, done, fatal, index,
  ◌>>=◌, if◌then◌else◌,
}
use simple_twitter.Common.Order.{Bytes, nat_order, bytes_order}
use simple_twitter.Common.Map.{lookup, insert}
use simple_twitter.Search.{binary_search_uint32}
use simple_twitter.Hash.{store_hash}
use simple_twitter.StorageServer.Proto.{ok, key_not_found, GetArgs, GetReply, GetListReply, PutArgs}
use simple_twitter.StorageServer.State.{Client}
use simple_twitter.Libstore.State.{
  LeaseMode, Libstore, LibEnv, LibError, Result, call_failed, should_not_be_reached, unknown_reply,
  not_ready_in_time,
}
use simple_twitter.Libstore.State
use simple_twitter.Libstore.Cache.{cached, ask, begin_query, end_query}

-- The libstore's own copy of the lookup on the ring.
unfoldable pub search_ring : List ℕ → Bytes → Outcome ℕ
search_ring ring key = do
  hash ← store_hash key
  i ← binary_search_uint32 ring hash
  index (get_elem? ring (if i == length ring then 0 else i))

abbrev pub or_no_address : Option Bytes → Bytes
or_no_address none = []
or_no_address (some a) = a

unfoldable pub get_storage_server : LibEnv → Bytes → Libstore → Outcome (Client × Libstore)
unfolding search_ring
get_storage_server env key ls = search_ring ls.ring key >>= λ id. elim (lookup id ls.conns) [
  | some cli ↦ done (cli, ls)
  | none ↦
      let address = or_no_address (lookup id ls.nodes) in
      let cli : Client = record { address = address } in
      if env.dials address then done (cli, record ls { conns = insert id cli ls.conns }) else fatal
]

-- The requests that a libstore sends; the answer `none` is a failed call.
pub data Call : Type 0 where
  get_call get_list_call : GetArgs → Call
  put_call append_call remove_call : PutArgs → Call
  delete_call : Bytes → Call

-- What a method did: its new state, its result, and the requests it sent with their targets.
pub record Finished (A : Type 0) : Type 0 where
  pub libstore : Libstore
  pub result : Result A
  pub sent : List (Client × Call)

abbrev pub finish : {A : Type 0} → Libstore → Result A → List (Client × Call) → Outcome (Finished A)
finish ls result sent = done (record { libstore = ls; result = result; sent = sent })

-- `Get` after the reply.
unfoldable pub end_get :
    LibEnv
    → Bytes
    → Bool
    → Option ℕ
    → Option GetReply
    → List (Client × Call)
    → Libstore
    → Outcome (Finished Bytes)
end_get env key want_lease rec none sent ls = finish ls (State.err call_failed) sent
end_get env key want_lease rec (some reply) sent ls = elim reply.status [
  | ok ↦ end_query env key want_lease rec reply.lease (reply.value ∷ []) ls >>= λ ls'.
      finish ls' (State.ok reply.value) sent
  | key_not_found ↦ finish ls (State.err (State.key_not_found key)) sent
  | _ ↦ finish ls (State.err should_not_be_reached) sent
]

-- `GetList` after the reply.
unfoldable pub end_get_list :
    LibEnv
    → Bytes
    → Bool
    → Option ℕ
    → Option GetListReply
    → List (Client × Call)
    → Libstore
    → Outcome (Finished (List Bytes))
end_get_list env key want_lease rec none sent ls = finish ls (State.err call_failed) sent
end_get_list env key want_lease rec (some reply) sent ls = elim reply.status [
  | ok ↦ end_query env key want_lease rec reply.lease reply.value ls >>= λ ls'.
      finish ls' (State.ok reply.value) sent
  | key_not_found ↦ finish ls (State.err (State.key_not_found key)) sent
  | _ ↦ finish ls (State.err unknown_reply) sent
]

abbrev pub query_of : Bytes → Bool → Libstore → GetArgs
query_of key want_lease ls = record { key = key; want_lease = want_lease; host_port = ls.host_port }

unfoldable pub get : LibEnv → Bytes → (Call → Option GetReply) → Libstore → Outcome (Finished Bytes)
unfolding end_get
get env key answer ls = begin_query env key ls >>= λ (ls', begun). elim begun [
  | cached values ↦ index (get_elem? values 0) >>= λ value. finish ls' (State.ok value) []
  | ask want_lease rec ↦ get_storage_server env key ls' >>= λ (cli, ls'').
      let call = get_call (query_of key want_lease ls'') in
      end_get env key want_lease rec (answer call) ((cli, call) ∷ []) ls''
]

unfoldable pub get_list :
    LibEnv → Bytes → (Call → Option GetListReply) → Libstore → Outcome (Finished (List Bytes))
unfolding end_get_list
get_list env key answer ls = begin_query env key ls >>= λ (ls', begun). elim begun [
  | cached values ↦ finish ls' (State.ok values) []
  | ask want_lease rec ↦ get_storage_server env key ls' >>= λ (cli, ls'').
      let call = get_list_call (query_of key want_lease ls'') in
      end_get_list env key want_lease rec (answer call) ((cli, call) ∷ []) ls''
]
