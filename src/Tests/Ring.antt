-- ===== src/Tests/Ring.antt =====
-- The ring and how it is formed, at concrete inputs.
use simple_twitter.Common.{ℕ, ◌==◌, ◌≡◌, ◌∷◌, [], refl, true, done, Returns}
use simple_twitter.Common.Order.{Bytes, nat_order}
use simple_twitter.Text.{codes, split}
use simple_twitter.Slices.{has}
use simple_twitter.Hash.{store_hash}
use simple_twitter.Ring.{Node}
use simple_twitter.StorageServer.Proto.{ok}
use simple_twitter.StorageServer.State.{StorageServer, key_range_contains}
use simple_twitter.StorageServer.Membership.{new_server, get_servers, register_server}
use simple_twitter.StorageServer.Membership.Register.{
  AreMembers, new_server-AreMembers, Registers, register_server-Registers,
}
use simple_twitter.StorageServer.Membership.Agreement.{key_range_contains-one_owner}
use simple_twitter.Tests.Data.{fresh}

abbrev roc : Bytes
roc = codes "roc:usrid"

roc_hash : store_hash roc ≡ done 1081269259
unfolding store_hash split
roc_hash = refl

abbrev first : Node
first = record { host_port = codes "localhost:9001"; node_id = 5 }

abbrev second : Node
second = record { host_port = codes "localhost:9002"; node_id = 2000000000 }

key_range_contains-one_owner_example :
    (owner : ℕ) × (has owner (5 ∷ 2000000000 ∷ []) ≡ true)
    × ((ss : StorageServer)
        → ss.ring ≡ 5 ∷ 2000000000 ∷ []
        → key_range_contains ss roc ≡ done (ss.node_id == owner))
key_range_contains-one_owner_example =
    key_range_contains-one_owner (5 ∷ 2000000000 ∷ []) roc ((refl, tt), (tt, tt)) (cc)

pub fresh-AreMembers : AreMembers fresh.members
fresh-AreMembers = new_server-AreMembers (codes "localhost:9000") 1 7

register_server-Registers_example :
    Returns
      (register_server (λ nodes. nodes) second fresh)
      (Registers (λ nodes. nodes) fresh second)
register_server-Registers_example =
    register_server-Registers (λ nodes. nodes) fresh second fresh-AreMembers

pub fresh_ready : (get_servers (λ nodes. nodes) fresh).status ≡ ok
unfolding get_servers new_server
fresh_ready = refl
