-- ===== src/StorageServer/Leases.antt =====
-- src/storageserver/storageserver_impl.go: `recordLease`, `getAppServer` and `revokeLease`.
pub mod Grants
pub mod Revoke
use simple_twitter.Common.{
  ℕ, zero, suc, ◌+◌, Bool, true, false, not, ◌||◌, Option, none, some, List, [], ◌∷◌, length,
  get_elem?, leb, ltb, Outcome, done, fatal, index, ◌>>=◌, if◌then◌else◌,
}
use simple_twitter.Common.Int.{int_ltb, int_add}
use simple_twitter.Common.Order.{Bytes, bytes_eqb, bytes_order}
use simple_twitter.Common.Map.{lookup, insert, delete}
use simple_twitter.Slices.{insert_at}
use simple_twitter.Lease.{format_lease_record, parse_lease_record, binary_search_lease_record}
use simple_twitter.StorageServer.Proto.{lease_seconds, lease_guard_seconds}
use simple_twitter.StorageServer.State.{Client, StorageServer, Env, Revocation}

-- A missing key has an empty list.
abbrev pub or_empty : Option (List Bytes) → List Bytes
or_empty none = []
or_empty (some xs) = xs

-- The host of the record at `i`, or the empty string past the end.
unfoldable pub host_before_end : List Bytes → ℕ → Outcome Bytes
host_before_end tlist i =
    if ltb i (length tlist)
    then (do
      lease_record ← index (get_elem? tlist i)
      parsed ← parse_lease_record lease_record
      done parsed.0)
    else done []

unfoldable pub record_lease : Env → Bytes → Bytes → StorageServer → Outcome StorageServer
unfolding host_before_end
record_lease env key hostport ss = do
  let tlist = or_empty (lookup key ss.tenants)
  let lease_record = format_lease_record hostport (env.clock 0)
  i ← binary_search_lease_record tlist lease_record
  tar ← host_before_end tlist i
  if leb (length tlist) i || not (bytes_eqb tar hostport)
      then (do
        tlist' ← insert_at i lease_record tlist
        done (record ss { tenants = insert key tlist' ss.tenants }))
      else done ss

unfoldable pub get_app_server : Env → ℕ → Bytes → StorageServer → Outcome (Client × StorageServer)
get_app_server env k host_port ss = elim (lookup host_port ss.conns) [
  | some cli ↦ done (cli, ss)
  | none ↦
      let cli : Client = record { address = host_port } in
      if env.dials k host_port
      then done (cli, record ss { conns = insert host_port cli ss.conns })
      else fatal
]

abbrev pub add_call :
    Revocation → StorageServer × List Revocation → Outcome (StorageServer × List Revocation)
add_call call (ss, calls) = done (ss, call ∷ calls)

-- The loop over the lease records of a key. Both cases of the `select`, the timeout and the answer,
-- go on with the next record, so the answer is not looked at.
unfoldable pub revoke_loop :
    Env → Bytes → List Bytes → ℕ → StorageServer → Outcome (StorageServer × List Revocation)
unfolding get_app_server
revoke_loop env key [] k ss = done (ss, [])
revoke_loop env key (lease_record ∷ tenants) k ss = parse_lease_record lease_record >>= λ parsed.
    elim (int_ltb (int_add parsed.1 (lease_seconds + lease_guard_seconds)) (env.clock k)) [
      | true ↦ revoke_loop env key tenants (suc k) ss
      | false ↦ get_app_server env k parsed.0 ss >>= λ (cli, ss').
          revoke_loop env key tenants (suc k) ss'
          >>= add_call (record { target = cli.address; key = key })
    ]

unfoldable pub revoke_lease :
    Env → Bytes → StorageServer → Outcome (StorageServer × List Revocation)
unfolding revoke_loop
revoke_lease env key ss = elim (lookup key ss.tenants) [
  | none ↦ done (ss, [])
  | some tenants ↦ do
    revoked ← revoke_loop env key tenants 0 ss
    done (record revoked.0 { tenants = delete key revoked.0.tenants }, revoked.1)
]
