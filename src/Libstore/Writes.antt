-- ===== src/Libstore/Writes.antt =====
-- src/libstore/libstore_impl.go: `Put`, `Delete`, `AppendToList` and `RemoveFromList`. They send the
-- request to the server of the key and turn its status into an error; `answer` is what comes back,
-- `none` for a failed call.
use simple_twitter.Common.{Option, none, some, [], ◌∷◌, Outcome, ◌>>=◌}
use simple_twitter.Common.Order.{Bytes}
use simple_twitter.StorageServer.Proto.{Status, ok, key_not_found, item_not_found, item_exists}
use simple_twitter.Libstore.State.{
  Libstore, LibEnv, Result, call_failed, should_not_be_reached, unknown_reply,
}
use simple_twitter.Libstore.State
use simple_twitter.Libstore.Requests.{
  Call, put_call, append_call, remove_call, delete_call, Finished, finish, get_storage_server,
}

unfoldable pub put_result : Option Status → Result Unit
put_result none = State.err call_failed
put_result (some status) = elim status [ ok ↦ State.ok tt | _ ↦ State.err should_not_be_reached ]

unfoldable pub put :
    LibEnv → Bytes → Bytes → (Call → Option Status) → Libstore → Outcome (Finished Unit)
unfolding put_result
put env key value answer ls = get_storage_server env key ls >>= λ (cli, ls').
    let call = put_call (record { key = key; value = value }) in
    finish ls' (put_result (answer call)) ((cli, call) ∷ [])

unfoldable pub delete_result : Bytes → Option Status → Result Unit
delete_result key none = State.err call_failed
delete_result key (some status) = elim status [
  | ok ↦ State.ok tt
  | key_not_found ↦ State.err (State.key_not_found key)
  | _ ↦ State.err should_not_be_reached
]

unfoldable pub delete : LibEnv → Bytes → (Call → Option Status) → Libstore → Outcome (Finished Unit)
unfolding delete_result
delete env key answer ls = get_storage_server env key ls >>= λ (cli, ls').
    let call = delete_call key in finish ls' (delete_result key (answer call)) ((cli, call) ∷ [])

unfoldable pub remove_result : Bytes → Bytes → Option Status → Result Unit
remove_result key item none = State.err call_failed
remove_result key item (some status) = elim status [
  | ok ↦ State.ok tt
  | item_not_found ↦ State.err (State.item_not_found key item)
  | _ ↦ State.err unknown_reply
]

unfoldable pub remove_from_list :
    LibEnv → Bytes → Bytes → (Call → Option Status) → Libstore → Outcome (Finished Unit)
unfolding remove_result
remove_from_list env key item answer ls = get_storage_server env key ls >>= λ (cli, ls').
    let call = remove_call (record { key = key; value = item }) in
    finish ls' (remove_result key item (answer call)) ((cli, call) ∷ [])

unfoldable pub append_result : Bytes → Bytes → Option Status → Result Unit
append_result key item none = State.err call_failed
append_result key item (some status) = elim status [
  | ok ↦ State.ok tt
  | item_exists ↦ State.err (State.item_exists key item)
  | _ ↦ State.err unknown_reply
]

unfoldable pub append_to_list :
    LibEnv → Bytes → Bytes → (Call → Option Status) → Libstore → Outcome (Finished Unit)
unfolding append_result
append_to_list env key item answer ls = get_storage_server env key ls >>= λ (cli, ls').
    let call = append_call (record { key = key; value = item }) in
    finish ls' (append_result key item (answer call)) ((cli, call) ∷ [])
