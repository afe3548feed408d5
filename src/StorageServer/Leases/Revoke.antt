-- ===== src/StorageServer/Leases/Revoke.antt =====
-- What `revokeLease` does, told by the hosts and times that the lease records of a key stand for.
use simple_twitter.Common.{
  ℕ, suc, ◌≡◌, refl, Bool, true, none, some, List, [], ◌∷◌, arith, done, if◌then◌else◌, Bool-cases,
  Option-cases, inl, inr,
}
use simple_twitter.Common.Int.{ℤ, int_ltb, int_add}
use simple_twitter.Common.Order.{Bytes, bytes_order, bytes_eqb_iff}
use simple_twitter.Common.Map.{Map, lookup, insert, delete, delete_missing, lookup-insert}
use simple_twitter.Lease.Records.{
  Grants, records, AreReadable, parse_lease_record-format_lease_record,
}
use simple_twitter.StorageServer.State.{Client, StorageServer, Env, Revocation}
use simple_twitter.StorageServer.Leases.{get_app_server, revoke_loop, revoke_lease}
use simple_twitter.StorageServer.Leases.Grants.{AreGrants}

-- The times at which a lease is over for the storage server.
abbrev pub is_over : Env → ℕ → ℤ → Bool
is_over env k t = int_ltb (int_add t 12) (env.clock k)

-- The hosts whose leases are not over, which are the ones that are told.
unfoldable pub due : Env → Bytes → Grants → ℕ → List Revocation
due env key [] k = []
due env key ((host, t) ∷ grants) k =
    let rest = due env key grants (suc k) in
    if is_over env k t then rest else record { target = host; key = key } ∷ rest

unfoldable pub connect : Bytes → Map Bytes Client → Map Bytes Client
connect host conns = elim (lookup host conns) [
  | some cli ↦ conns
  | none ↦ insert host (record { address = host }) conns
]

unfoldable pub connect_due : Env → Grants → ℕ → Map Bytes Client → Map Bytes Client
unfolding connect
connect_due env [] k conns = conns
connect_due env ((host, t) ∷ grants) k conns =
    connect_due env grants (suc k) (if is_over env k t then conns else connect host conns)

-- Every connection is one to the address under which it is kept.
abbrev pub AreClients : Map Bytes Client → Type 0
AreClients conns = (host : Bytes) (cli : Client) → lookup host conns ≡ some cli → cli.address ≡ host

pub connect-AreClients :
    (host : Bytes) (conns : Map Bytes Client) → AreClients conns → AreClients (connect host conns)
unfolding connect
connect-AreClients host conns c h cli e = ground (
  arith,
  c h cli,
  lookup-insert {V = Client} host h (record { address = host }) conns,
  bytes_eqb_iff host h,
)

pub connect_due-AreClients :
    (env : Env) (grants : Grants) (k : ℕ) (conns : Map Bytes Client)
    → AreClients conns
    → AreClients (connect_due env grants k conns)
unfolding connect_due
connect_due-AreClients env [] k conns c = c
connect_due-AreClients env ((host, t) ∷ grants) k conns c = elim (Bool-cases (is_over env k t)) [
  | inl over ↦ rw over (connect_due-AreClients env grants (suc k) conns c)
  | inr live ↦ rw live (
      connect_due-AreClients env grants (suc k) (connect host conns)
        (connect-AreClients host conns c))
]

-- All hosts can be reached.
abbrev pub AllAnswer : Env → Type 0
AllAnswer env = (k : ℕ) (host : Bytes) → env.dials k host ≡ true

get_app_server-connect :
    (env : Env) (k : ℕ) (host : Bytes) (ss : StorageServer)
    → AreClients ss.conns
    → AllAnswer env
    → get_app_server env k host ss
      ≡ done (record { address = host }, record ss { conns = connect host ss.conns })
unfolding get_app_server connect
get_app_server-connect env k host ss c a = elim (Option-cases (lookup host ss.conns)) [
  | inl missing ↦ ground (arith, missing, a k host)
  | inr (cli, there) ↦ ground (arith, there, c host cli there)
]

revoke_loop-due :
    (env : Env) (key : Bytes) (grants : Grants) (k : ℕ) (ss : StorageServer)
    → AreReadable grants
    → AreClients ss.conns
    → AllAnswer env
    → revoke_loop env key (records grants) k ss
      ≡ done (record ss { conns = connect_due env grants k ss.conns }, due env key grants k)
unfolding revoke_loop connect_due due
revoke_loop-due env key [] k ss r c a = refl
revoke_loop-due env key ((host, t) ∷ grants) k ss r c a = ground (
  arith,
  parse_lease_record-format_lease_record host t r.0.0 r.0.1,
  get_app_server-connect env k host ss c a,
  revoke_loop-due env key grants (suc k) ss r.1 c a,
  revoke_loop-due env key grants (suc k) (record ss { conns = connect host ss.conns }) r.1
      (connect-AreClients host ss.conns c) a,
)

-- The server after the leases of a key were revoked.
abbrev pub revoked : Env → Bytes → Grants → StorageServer → StorageServer
revoked env key grants ss = record ss {
  conns = connect_due env grants 0 ss.conns;
  tenants = delete key ss.tenants;
}

nothing_listed :
    (env : Env) (key : Bytes) (grants : Grants) (conns : Map Bytes Client)
    → [] ≡ records grants
    → (connect_due env grants 0 conns ≡ conns) × (due env key grants 0 ≡ [])
unfolding connect_due due
nothing_listed env key [] conns h = (refl, refl)
nothing_listed env key (grant ∷ grants) conns h = cc

-- For a key whose lease records are ascending and readable, where all hosts answer and every
-- connection is one to the address under which it is kept, revokeLease returns: it calls just the
-- hosts whose leases are not over, in the order of their records, opens the connections that it
-- lacks for that, and drops all lease records of the key.
pub revoke_lease-revoked :
    (env : Env) (key : Bytes) (ss : StorageServer) (grants : Grants)
    → AreGrants ss key grants
    → AreClients ss.conns
    → AllAnswer env
    → revoke_lease env key ss ≡ done (revoked env key grants ss, due env key grants 0)
unfolding revoke_lease
revoke_lease-revoked env key ss grants g c a = elim (Option-cases (lookup key ss.tenants)) [
  | inl missing ↦ ground (
    arith,
    missing,
    g.listed,
    delete_missing key ss.tenants missing,
    nothing_listed env key grants ss.conns,
  )
  | inr (tenants, there) ↦
      ground (arith, there, g.listed, revoke_loop-due env key grants 0 ss g.readable c a)
]
