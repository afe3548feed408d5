-- ===== src/Cluster.antt =====
-- A libstore in front of a ring of storage servers, each request carried to its server and answered
-- before the next. The libstore is in mode Never, in which it reads without leases.
pub mod Asks
pub mod Running
pub mod Values
pub mod Implements
use simple_twitter.Common.{
  ℕ, suc, Option, none, some, List, [], ◌∷◌, Outcome, done, ◌>>=◌, if◌then◌else◌,
}
use simple_twitter.Common.Order.{Bytes, bytes_eqb, nat_order}
use simple_twitter.Common.Map.{lookup}
use simple_twitter.StorageServer.Proto.{Status, GetReply, GetListReply}
use simple_twitter.StorageServer.State.{Client, StorageServer, Env}
use simple_twitter.StorageServer.Service.{
  Request, get_request, get_list_request, put_request, append_request, remove_request,
  delete_request, Reply, status_reply, get_replied, get_list_replied, handle,
}
use simple_twitter.Libstore.State.{Libstore, LibEnv, Result}
use simple_twitter.Libstore.State
use simple_twitter.Libstore.Requests.{
  Call, get_call, get_list_call, put_call, append_call, remove_call, delete_call, Finished,
  search_ring, or_no_address,
}

-- `count` is the number of the operations so far: each has its own readings of the clocks.
pub record Cluster : Type 0 where
  pub libstore : Libstore
  pub servers : Bytes → StorageServer
  pub count : ℕ

-- The address of the server that gets the requests for a key.
unfoldable pub host_of : Libstore → Bytes → Bytes
host_of ls key = elim (search_ring ls.ring key) [
  | done id ↦ or_no_address (lookup id ls.nodes)
  | _ ↦ []
]

abbrev pub request_of : Call → Request
request_of (get_call args) = get_request args
request_of (get_list_call args) = get_list_request args
request_of (put_call args) = put_request args
request_of (append_call args) = append_request args
request_of (remove_call args) = remove_request args
request_of (delete_call key) = delete_request key

abbrev pub as_status : Reply → Option Status
as_status (status_reply status) = some status
as_status _ = none

abbrev pub as_get : Reply → Option GetReply
as_get (get_replied reply) = some reply
as_get _ = none

abbrev pub as_get_list : Reply → Option GetListReply
as_get_list (get_list_replied reply) = some reply
as_get_list _ = none

abbrev pub set_server : Bytes → StorageServer → (Bytes → StorageServer) → Bytes → StorageServer
set_server host ss servers h = if bytes_eqb host h then ss else servers h

-- A request at a server. If the handler panics or exits, so does the run.
unfoldable pub exchange :
    Env → Bytes → Call → (Bytes → StorageServer) → Outcome (Reply × (Bytes → StorageServer))
exchange env host call servers = handle env (request_of call) (servers host) >>= λ a.
    done (a.reply, set_server host a.server servers)

unfoldable pub exchange_all :
    Env → List (Client × Call) → (Bytes → StorageServer) → Outcome (Bytes → StorageServer)
exchange_all env [] servers = done servers
exchange_all env ((cli, call) ∷ sent) servers =
    exchange env cli.address call servers >>= λ (reply, servers'). exchange_all env sent servers'

-- A server that dies gives no answer.
abbrev pub read_reply :
    {R : Type 0} → (Reply → Option R) → Outcome (Reply × (Bytes → StorageServer)) → Option R
read_reply pick (done (reply, servers)) = pick reply
read_reply pick _ = none

abbrev pub value_or_error : {A : Type 0} → Result A → Option A
value_or_error (State.ok a) = some a
value_or_error (State.err e) = none

abbrev pub concluded : {A : Type 0} → Env → Cluster → Finished A → Outcome (Option A × Cluster)
concluded env c f = exchange_all env f.sent c.servers >>= λ servers. done (
  value_or_error f.result,
  record { libstore = f.libstore; servers = servers; count = suc c.count },
)

-- A method of the libstore: what comes back is the answer of the server of the key, and the servers
-- get the requests that were sent. The run panics or exits where the libstore or a server does.
unfoldable pub run_method :
    {A R : Type 0}
    → Env
    → Bytes
    → (Reply → Option R)
    → ((Call → Option R) → Libstore → Outcome (Finished A))
    → Cluster
    → Outcome (Option A × Cluster)
unfolding exchange exchange_all
run_method env key pick method c =
    method (λ call. read_reply pick (exchange env (host_of c.libstore key) call c.servers))
      c.libstore
    >>= concluded env c
