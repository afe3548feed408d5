-- ===== src/Lease.antt =====
-- src/util/common.go: the records of the leases that a storage server has granted.
pub mod Records
use simple_twitter.Common.{
  ℕ, zero, suc, List, [], ◌∷◌, ◌++◌, length, get_elem?, Outcome, done, index, ◌>>=◌,
}
use simple_twitter.Common.Int.{ℤ}
use simple_twitter.Common.Order.{Bytes, bytes_order}
use simple_twitter.Text.{split}
use simple_twitter.Text.Hex.{format_int, parse_int}
use simple_twitter.Search.{search_loop}

unfoldable pub format_lease_record : Bytes → ℤ → Bytes
format_lease_record hostport time = hostport ++ b'~' ∷ format_int time

unfoldable pub parse_lease_record : Bytes → Outcome (Bytes × ℤ)
parse_lease_record lease_record = do
  let slist = split b'~' lease_record
  hostport ← index (get_elem? slist 0)
  res ← index (get_elem? slist 1)
  done (hostport, parse_int res)

-- `tar, _ := ParseLeaseRecord(vals[mid])`
abbrev pub host_at : List Bytes → ℕ → Outcome Bytes
host_at vals m = do
  lease_record ← index (get_elem? vals m)
  parsed ← parse_lease_record lease_record
  done parsed.0

unfoldable pub binary_search_lease_record : List Bytes → Bytes → Outcome ℕ
unfolding search_loop parse_lease_record
binary_search_lease_record vals val = do
  parsed ← parse_lease_record val
  search_loop (host_at vals) parsed.0 (suc (length vals)) 0 (length vals)
