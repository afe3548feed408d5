-- ===== src/Tests/Data.antt =====
-- A ring of one storage server with lists on it, and the outside at a time.
use simple_twitter.Common.{ℕ, true, [], ◌∷◌, ◌≡◌, refl, done, arith, ◌∙◌, ap}
use simple_twitter.Common.Int.{pos}
use simple_twitter.Common.Order.{Bytes, bytes_order, bytes_eqb, bytes_ltb, nat_order}
use simple_twitter.Common.Map.{insert, lookup}
use simple_twitter.Text.{codes}
use simple_twitter.Text.Split.{Lacks}
use simple_twitter.Slices.{has}
use simple_twitter.Lease.Records.{Grants}
use simple_twitter.StorageServer.State.{StorageServer, Env}
use simple_twitter.StorageServer.Membership.{new_server}
use simple_twitter.StorageServer.Membership.Agreement.{key_range_contains-one_owner}
use simple_twitter.StorageServer.Leases.Revoke.{AllAnswer}
use simple_twitter.StorageServer.Leases.Grants.{AreGrants, insert_grant, lent}
use simple_twitter.StorageServer.Invariant.{
  IsWellFormed, new_server-IsWellFormed, stored-IsWellFormed, lent-IsWellFormed,
}
use simple_twitter.StorageServer.Service.Refines.{IsFair, Owns}

abbrev pub app_host : Bytes
app_host = codes "localhost:8000"

abbrev pub list_key : Bytes
list_key = codes "roc:sublist"

abbrev pub empty_key : Bytes
empty_key = codes "amy:sublist"

abbrev pub amy : Bytes
amy = codes "amy"

abbrev pub bob : Bytes
bob = codes "bob"

abbrev pub zoe : Bytes
zoe = codes "zoe"

-- All is well outside, and the clock shows `seconds`.
abbrev pub at : ℕ → Env
at seconds = record { clock = λ k. pos seconds; dials = λ k host. true }

pub at-AllAnswer : (seconds : ℕ) → AllAnswer (at seconds)
at-AllAnswer seconds k host = refl

pub at-IsFair : IsFair (at 100)
at-IsFair = record { reachable = at-AllAnswer 100; now = omega arith }

abbrev pub fresh : StorageServer
fresh = new_server true (codes "localhost:9000") 1 7

-- One key has two values, and one an empty list.
abbrev pub stocked : StorageServer
stocked = record fresh {
  storage = insert list_key (amy ∷ zoe ∷ []) (insert empty_key [] fresh.storage);
}

pub stocked-IsWellFormed : IsWellFormed stocked
unfolding bytes_ltb
stocked-IsWellFormed =
    stored-IsWellFormed list_key (amy ∷ zoe ∷ [])
      (record fresh { storage = insert empty_key [] fresh.storage }) ((refl, tt), (tt, tt))
      (stored-IsWellFormed empty_key [] fresh tt
        (new_server-IsWellFormed (codes "localhost:9000") 1 7))

pub no_grants : (key : Bytes) → AreGrants stocked key []
unfolding new_server lookup
no_grants key = record { listed = refl; sorted = tt; readable = tt }

pub app_host-Lacks : Lacks b'~' app_host
app_host-Lacks = omega arith

-- The application server has a lease of time 100 on both keys.
abbrev pub leased : StorageServer
leased = lent (at 100) empty_key app_host [] (lent (at 100) list_key app_host [] stocked)

abbrev pub granted : Grants
granted = (app_host, pos 100) ∷ []

pub granted-AreGrants : AreGrants leased list_key granted
unfolding new_server lookup insert insert_grant has bytes_eqb
granted-AreGrants = record {
  listed = refl;
  sorted = (tt, tt);
  readable = ((app_host-Lacks, omega arith), tt);
}

empty_grants : AreGrants (lent (at 100) list_key app_host [] stocked) empty_key []
unfolding new_server lookup insert insert_grant has bytes_eqb
empty_grants = record { listed = refl; sorted = tt; readable = tt }

pub leased-IsWellFormed : IsWellFormed leased
leased-IsWellFormed =
    lent-IsWellFormed (at 100) empty_key app_host [] _ empty_grants app_host-Lacks (omega arith) (
      lent-IsWellFormed (at 100) list_key app_host [] stocked (no_grants list_key) app_host-Lacks
        (omega arith) stocked-IsWellFormed)

-- The only server of the ring owns every key.
pub single-Owns : (ss : StorageServer) → ss.node_id ≡ 7 → ss.ring ≡ 7 ∷ [] → Owns ss (λ key. true)
unfolding has
single-Owns ss n e key =
    let (owner, member, owns) = key_range_contains-one_owner (7 ∷ []) key (tt, tt) (λ h. cc) in
    owns ss e ∙ ap done (ground (arith, member, n))

pub stocked-Owns : Owns stocked (λ key. true)
unfolding new_server
stocked-Owns = single-Owns stocked refl refl

pub leased-Owns : Owns leased (λ key. true)
unfolding new_server has
leased-Owns = single-Owns leased refl refl
