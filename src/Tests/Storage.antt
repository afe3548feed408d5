-- ===== src/Tests/Storage.antt =====
-- The storage server's handlers at concrete inputs.
use simple_twitter.Common.{ℕ, ◌≢◌, ◌≡◌, ◌∷◌, [], refl, true, List, arith, done, Returns, some}
use simple_twitter.Common.Int.{pos, int_add, int_ltb}
use simple_twitter.Common.Order.{nat_order, bytes_order, bytes_eqb}
use simple_twitter.Common.Map.{lookup, insert}
use simple_twitter.Text.{codes}
use simple_twitter.Slices.{has}
use simple_twitter.StorageServer.Proto.{ok, full_lease, GetArgs}
use simple_twitter.StorageServer.State.{StorageServer, Env}
use simple_twitter.StorageServer.Membership.{new_server}
use simple_twitter.StorageServer.Leases.{revoke_lease}
use simple_twitter.StorageServer.Leases.Revoke.{due, revoked, revoke_lease-revoked}
use simple_twitter.StorageServer.Leases.Grants.{AreGrants}
use simple_twitter.StorageServer.Invariant.{IsWellFormed}
use simple_twitter.Lease.Records.{Grants, hosts}
use simple_twitter.Ring.{Ring}
use simple_twitter.StorageServer.Handlers.{get_list, get, put, append_to_list, remove_from_list}
use simple_twitter.StorageServer.Effects.{Serves, append_effect, remove_effect}
use simple_twitter.StorageServer.Refinement.{append_to_list-Serves, remove_from_list-Serves}
use simple_twitter.StorageServer.Service.{
  Request, get_list_request, append_request, delete_request, refusal, handle, serve, perform_own,
  perform_all,
}
use simple_twitter.StorageServer.Service.Refines.{
  contents, Performs, Follows, requests, serve-Performs,
}
use simple_twitter.StorageServer.Service.Owner.{handle-one_server}
use simple_twitter.StorageServer.Stale.{append_to_list_untold, renewed_lease_not_recorded}
use simple_twitter.Tests.Data.{
  app_host, app_host-Lacks, list_key, empty_key, amy, bob, zoe, at, at-AllAnswer, at-IsFair,
  stocked, stocked-IsWellFormed, leased, granted, granted-AreGrants, leased-IsWellFormed,
  stocked-Owns, leased-Owns,
}

abbrev read_list : GetArgs
read_list = record { key = list_key; want_lease = true; host_port = app_host }

revoke_lease-revoked_example :
    revoke_lease (at 105) list_key leased
    ≡ done (revoked (at 105) list_key granted leased, due (at 105) list_key granted 0)
revoke_lease-revoked_example =
    revoke_lease-revoked (at 105) list_key leased granted granted-AreGrants
      leased-IsWellFormed.clients (at-AllAnswer 105)

-- Within its time the holder of the lease is told, and after it is not.
told :
    (due (at 105) list_key granted 0 ≡ record { target = app_host; key = list_key } ∷ [])
    × (due (at 113) list_key granted 0 ≡ [])
unfolding due int_add int_ltb
told = (refl, refl)

append_to_list-Serves_example :
    Returns
      (append_to_list (at 105) (record { key = list_key; value = bob }) leased)
      (Serves (at 105) leased list_key granted (append_effect bob (lookup list_key leased.storage)))
append_to_list-Serves_example =
    append_to_list-Serves (at 105) leased list_key granted leased-IsWellFormed granted-AreGrants
      (at-AllAnswer 105) (leased-Owns list_key) bob

remove_from_list-Serves_example :
    Returns
      (remove_from_list (at 105) (record { key = list_key; value = amy }) leased)
      (Serves (at 105) leased list_key granted (remove_effect amy (lookup list_key leased.storage)))
remove_from_list-Serves_example =
    remove_from_list-Serves (at 105) leased list_key granted leased-IsWellFormed granted-AreGrants
      (at-AllAnswer 105) (leased-Owns list_key) amy

abbrev script : List (Env × Request)
script =
    (at 100, append_request (record { key = list_key; value = bob }))
    ∷ (at 100, get_list_request read_list)
    ∷ (at 100, delete_request empty_key)
    ∷ []

serve-Performs_example :
    Returns
      (serve script stocked)
      (Performs (perform_all (λ key. true) (requests script) (contents stocked)))
serve-Performs_example =
    serve-Performs script stocked (λ key. true)
      (at-IsFair, tt, (at-IsFair, app_host-Lacks, (at-IsFair, tt, tt))) stocked-IsWellFormed
      stocked-Owns

abbrev read_empty : GetArgs
read_empty = record { key = empty_key; want_lease = true; host_port = app_host }

append_to_list_untold_example : Returns (get_list (at 100) read_empty leased) (λ a.
    (a.reply ≡ record { status = ok; value = []; lease = full_lease })
    × Returns (append_to_list (at 105) (record { key = empty_key; value = bob }) a.server) (λ b.
      (b.reply ≡ ok)
      × (lookup empty_key b.server.storage ≡ some (bob ∷ []))
      × (b.calls ≡ [])
      × ((grants : Grants) × AreGrants a.server empty_key grants
          × AreGrants b.server empty_key grants
          × (has app_host (hosts grants) ≡ true))))
unfolding new_server lookup insert bytes_eqb has
append_to_list_untold_example =
    append_to_list_untold (at 100) (at 105) read_empty leased bob leased-IsWellFormed app_host-Lacks
      (omega arith) (at-AllAnswer 105) (leased-Owns empty_key) refl refl

renewed_lease_not_recorded_example : Returns (get (at 111) read_list leased) (λ a.
    (a.reply.lease ≡ full_lease)
    × AreGrants a.server list_key ((app_host, pos 100) ∷ [])
    × Returns (put (at 113) (record { key = list_key; value = bob }) a.server) (λ b.
      (b.reply ≡ ok) × (lookup list_key b.server.storage ≡ some (bob ∷ [])) × (b.calls ≡ [])))
unfolding new_server lookup insert bytes_eqb has int_add int_ltb
renewed_lease_not_recorded_example =
    renewed_lease_not_recorded (at 111) (at 113) read_list leased bob (pos 100) (amy ∷ zoe ∷ [])
      leased-IsWellFormed granted-AreGrants app_host-Lacks (omega arith) (at-AllAnswer 113)
      (leased-Owns list_key) refl refl refl

-- Two servers in a ring, and any number of strangers to it.
abbrev two : Ring
two = record {
  ring = 5 ∷ 2000000000 ∷ [];
  nodes = (5, codes "localhost:9001") ∷ (2000000000, codes "localhost:9002") ∷ [];
}

abbrev servers : ℕ → StorageServer
servers id = record stocked { node_id = id; members = two }

servers-IsWellFormed : (id : ℕ) → IsWellFormed (servers id)
servers-IsWellFormed id = record {
  lists = stocked-IsWellFormed.lists;
  leases = λ k.
      let (grants, g) = stocked-IsWellFormed.leases k in
      (grants, record { listed = g.listed; sorted = g.sorted; readable = g.readable });
  clients = stocked-IsWellFormed.clients;
  ring_sorted = ((refl, tt), (tt, tt));
  ring_used = λ e. cc;
}

handle-one_server_example :
    (owner : ℕ) × (has owner two.ring ≡ true)
    × Returns (handle (at 100) (delete_request empty_key) (servers owner)) (λ a.
      Follows (servers owner) (perform_own (delete_request empty_key) (contents (servers owner))) a
      × (a.reply ≢ refusal (delete_request empty_key)))
    × ((id : ℕ) (env' : Env)
        → id ≢ owner
        → handle env' (delete_request empty_key) (servers id)
          ≡ done (record {
            server = servers id;
            reply = refusal (delete_request empty_key);
            calls = [];
          }))
handle-one_server_example =
    handle-one_server (at 100) (delete_request empty_key) two.ring servers at-IsFair tt
      ((refl, tt), (tt, tt)) (λ e. cc) (λ id. (servers-IsWellFormed id, refl, refl))
