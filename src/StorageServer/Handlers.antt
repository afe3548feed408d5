-- ===== src/StorageServer/Handlers.antt =====
-- src/storageserver/storageserver_impl.go: `Get`, `GetList`, `Put`, `Delete`, `AppendToList` and
-- `RemoveFromList`. A handler returns the server's new state, the reply, and the calls that it sent.
use simple_twitter.Common.{
  ℕ, Bool, false, Option, none, some, List, [], ◌∷◌, ◌++◌, length, get_elem?, get_last?, ltb,
  Outcome, done, index, ◌>>=◌, if◌then◌else◌,
}
use simple_twitter.Common.Order.{Bytes, bytes_eqb, bytes_ltb, bytes_order}
use simple_twitter.Common.Map.{lookup, insert, delete}
use simple_twitter.Search.{binary_search_string}
use simple_twitter.Slices.{insert_at, remove_at}
use simple_twitter.StorageServer.Proto.{
  Status, ok, key_not_found, item_not_found, wrong_server, item_exists, no_lease, full_lease,
  GetArgs, GetReply, GetListReply, PutArgs,
}
use simple_twitter.StorageServer.State.{StorageServer, Env, Revocation, key_range_contains}
use simple_twitter.StorageServer.Leases.{record_lease, revoke_lease}

-- What a handler leaves behind.
pub record Answer {ℓ} (R : Type ℓ) : Type ℓ where
  pub server : StorageServer
  pub reply : R
  pub calls : List Revocation

abbrev pub answer {ℓ} : {R : Type ℓ} → StorageServer → R → List Revocation → Outcome (Answer R)
answer ss reply calls = done (record { server = ss; reply = reply; calls = calls })

-- `if wantLease { … ss.recordLease(key, args.HostPort) }`
unfoldable pub lend : Env → GetArgs → StorageServer → Outcome StorageServer
lend env args ss = if args.want_lease then record_lease env args.key args.host_port ss else done ss

-- The first value of a key, or the empty string of the fresh reply.
abbrev pub first_value : List Bytes → Bytes
first_value [] = []
first_value (v ∷ vs) = v

unfoldable pub get_own :
    Env → GetArgs → StorageServer → Option (List Bytes) → Outcome (Answer GetReply)
unfolding lend
get_own env args ss none =
    answer ss (record { status = key_not_found; value = []; lease = no_lease }) []
get_own env args ss (some values) = do
  ss' ← lend env args ss
  answer ss'
      (record {
        status = ok;
        value = first_value values;
        lease = if args.want_lease then full_lease else no_lease;
      })
      []

unfoldable pub get : Env → GetArgs → StorageServer → Outcome (Answer GetReply)
unfolding get_own
get env args ss = do
  mine ← key_range_contains ss args.key
  if mine
      then get_own env args ss (lookup args.key ss.storage)
      else answer ss (record { status = wrong_server; value = []; lease = no_lease }) []

unfoldable pub get_list_own :
    Env → GetArgs → StorageServer → Option (List Bytes) → Outcome (Answer GetListReply)
unfolding lend
get_list_own env args ss none =
    answer ss (record { status = key_not_found; value = []; lease = no_lease }) []
get_list_own env args ss (some values) = do
  ss' ← lend env args ss
  answer ss'
      (record {
        status = ok;
        value = values;
        lease = if args.want_lease then full_lease else no_lease;
      })
      []

unfoldable pub get_list : Env → GetArgs → StorageServer → Outcome (Answer GetListReply)
unfolding get_list_own
get_list env args ss = do
  mine ← key_range_contains ss args.key
  if mine
      then get_list_own env args ss (lookup args.key ss.storage)
      else answer ss (record { status = wrong_server; value = []; lease = no_lease }) []

-- Revoke the leases of the key, then store the new values under it.
unfoldable pub revoke_and_store : Env → Bytes → List Bytes → StorageServer → Outcome (Answer Status)
revoke_and_store env key values ss = do
  revoked ← revoke_lease env key ss
  answer (record revoked.0 { storage = insert key values revoked.0.storage }) ok revoked.1

unfoldable pub put : Env → PutArgs → StorageServer → Outcome (Answer Status)
unfolding revoke_and_store
put env args ss = do
  mine ← key_range_contains ss args.key
  if mine then revoke_and_store env args.key (args.value ∷ []) ss else answer ss wrong_server []

unfoldable pub delete_own :
    Env → Bytes → StorageServer → Option (List Bytes) → Outcome (Answer Status)
delete_own env key ss none = answer ss key_not_found []
delete_own env key ss (some values) = do
  revoked ← revoke_lease env key ss
  answer (record revoked.0 { storage = delete key revoked.0.storage }) ok revoked.1

unfoldable pub delete_key : Env → Bytes → StorageServer → Outcome (Answer Status)
unfolding delete_own
delete_key env key ss = do
  mine ← key_range_contains ss key
  if mine then delete_own env key ss (lookup key ss.storage) else answer ss wrong_server []

-- The insertion into a list that is not empty and whose last value is not below the new one.
unfoldable pub insert_value : Env → PutArgs → List Bytes → StorageServer → Outcome (Answer Status)
unfolding revoke_and_store
insert_value env args values ss = do
  i ← binary_search_string values args.value
  at_i ← index (get_elem? values i)
  if bytes_eqb at_i args.value then answer ss item_exists [] else (do
    revoked ← revoke_lease env args.key ss
    values' ← insert_at i args.value values
    answer (record revoked.0 { storage = insert args.key values' revoked.0.storage }) ok revoked.1)

unfoldable pub append_own :
    Env → PutArgs → StorageServer → Option (List Bytes) → Outcome (Answer Status)
unfolding insert_value revoke_and_store
append_own env args ss none =
    answer (record ss { storage = insert args.key (args.value ∷ []) ss.storage }) ok []
append_own env args ss (some []) =
    answer (record ss { storage = insert args.key (args.value ∷ []) ss.storage }) ok []
append_own env args ss (some (v ∷ vs)) = do
  last ← index (get_last? (v ∷ vs))
  if bytes_ltb last args.value
      then revoke_and_store env args.key ((v ∷ vs) ++ args.value ∷ []) ss
      else insert_value env args (v ∷ vs) ss

unfoldable pub append_to_list : Env → PutArgs → StorageServer → Outcome (Answer Status)
unfolding append_own
append_to_list env args ss = do
  mine ← key_range_contains ss args.key
  if mine then append_own env args ss (lookup args.key ss.storage) else answer ss wrong_server []

-- `mid<len(values) && values[mid]==val`
unfoldable pub exists_at : List Bytes → ℕ → Bytes → Outcome Bool
exists_at values mid val =
    if ltb mid (length values)
    then (do at_mid ← index (get_elem? values mid); done (bytes_eqb at_mid val))
    else done false

unfoldable pub remove_own :
    Env → PutArgs → StorageServer → Option (List Bytes) → Outcome (Answer Status)
unfolding exists_at
remove_own env args ss none = answer ss item_not_found []
remove_own env args ss (some []) = answer ss item_not_found []
remove_own env args ss (some (v ∷ vs)) = do
  mid ← binary_search_string (v ∷ vs) args.value
  exists ← exists_at (v ∷ vs) mid args.value
  if exists
      then (do
        revoked ← revoke_lease env args.key ss
        values' ← remove_at mid (v ∷ vs)
        answer (record revoked.0 { storage = insert args.key values' revoked.0.storage }) ok
            revoked.1)
      else answer ss item_not_found []

unfoldable pub remove_from_list : Env → PutArgs → StorageServer → Outcome (Answer Status)
unfolding remove_own
remove_from_list env args ss = do
  mine ← key_range_contains ss args.key
  if mine then remove_own env args ss (lookup args.key ss.storage) else answer ss wrong_server []
