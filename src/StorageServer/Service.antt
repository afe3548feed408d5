-- ===== src/StorageServer/Service.antt =====
-- A storage server as a service: any sequence of requests, against a store that is a function from
-- keys to lists of values.
pub mod Refines
pub mod Owner
use simple_twitter.Common.{
  Bool, true, false, Option, none, some, List, [], ◌∷◌, Outcome, done, ◌>>=◌, if◌then◌else◌,
}
use simple_twitter.Common.Order.{Bytes, bytes_eqb}
use simple_twitter.StorageServer.Proto.{
  Status, wrong_server, no_lease, GetArgs, GetReply, GetListReply, PutArgs,
}
use simple_twitter.StorageServer.State.{StorageServer, Env}
use simple_twitter.StorageServer.Handlers.{
  Answer, get, get_list, put, delete_key, append_to_list, remove_from_list,
}
use simple_twitter.StorageServer.Effects.{
  Effect, put_effect, delete_effect, append_effect, remove_effect,
}
use simple_twitter.StorageServer.Reads.{get_reply, get_list_reply}

pub data Request : Type 0 where
  get_request get_list_request : GetArgs → Request
  put_request append_request remove_request : PutArgs → Request
  delete_request : Bytes → Request

pub data Reply : Type 0 where
  status_reply : Status → Reply
  get_replied : GetReply → Reply
  get_list_replied : GetListReply → Reply

abbrev pub key_of : Request → Bytes
key_of (get_request args) = args.key
key_of (get_list_request args) = args.key
key_of (put_request args) = args.key
key_of (append_request args) = args.key
key_of (remove_request args) = args.key
key_of (delete_request key) = key

abbrev pub with_reply : {R : Type 0} → (R → Reply) → Answer R → Outcome (Answer Reply)
with_reply reply a = done (record { server = a.server; reply = reply a.reply; calls = a.calls })

-- The handler that the request is for.
unfoldable pub handle : Env → Request → StorageServer → Outcome (Answer Reply)
handle env (get_request args) ss = get env args ss >>= with_reply get_replied
handle env (get_list_request args) ss = get_list env args ss >>= with_reply get_list_replied
handle env (put_request args) ss = put env args ss >>= with_reply status_reply
handle env (append_request args) ss = append_to_list env args ss >>= with_reply status_reply
handle env (remove_request args) ss = remove_from_list env args ss >>= with_reply status_reply
handle env (delete_request key) ss = delete_key env key ss >>= with_reply status_reply

-- The requests of a server's life, each with what it meets outside: its state at the end and the
-- replies.
unfoldable pub serve : List (Env × Request) → StorageServer → Outcome (StorageServer × List Reply)
unfolding handle
serve [] ss = done (ss, [])
serve ((env, request) ∷ rest) ss = handle env request ss >>= λ a.
    serve rest a.server >>= λ (ss', replies). done (ss', a.reply ∷ replies)

-- The abstract store.
abbrev pub Store : Type 0
Store = Bytes → Option (List Bytes)

abbrev pub update : Bytes → Option (List Bytes) → Store → Store
update key stored store k = if bytes_eqb key k then stored else store k

abbrev pub by_effect : Bytes → Effect → Store → Store × Reply
by_effect key e store = (update key e.stored store, status_reply e.status)

-- What a request does to the store of a server that owns its key.
abbrev pub perform_own : Request → Store → Store × Reply
perform_own (get_request args) store = (store, get_replied (get_reply args (store args.key)))
perform_own (get_list_request args) store =
    (store, get_list_replied (get_list_reply args (store args.key)))
perform_own (put_request args) store =
    by_effect args.key (put_effect args.value (store args.key)) store
perform_own (append_request args) store =
    by_effect args.key (append_effect args.value (store args.key)) store
perform_own (remove_request args) store =
    by_effect args.key (remove_effect args.value (store args.key)) store
perform_own (delete_request key) store = by_effect key (delete_effect (store key)) store

-- The reply of a server that does not own the key.
abbrev pub refusal : Request → Reply
refusal (get_request args) =
    get_replied (record { status = wrong_server; value = []; lease = no_lease })
refusal (get_list_request args) =
    get_list_replied (record { status = wrong_server; value = []; lease = no_lease })
refusal _ = status_reply wrong_server

unfoldable pub perform : (Bytes → Bool) → Request → Store → Store × Reply
perform owns request store =
    if owns (key_of request) then perform_own request store else (store, refusal request)

unfoldable pub perform_all : (Bytes → Bool) → List Request → Store → Store × List Reply
perform_all owns [] store = (store, [])
perform_all owns (request ∷ rest) store =
    let (store', reply) = perform owns request store in
    let (store'', replies) = perform_all owns rest store' in (store'', reply ∷ replies)
