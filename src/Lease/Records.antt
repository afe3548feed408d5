-- ===== src/Lease/Records.antt =====
-- Lease records are read back, and the search by host finds the rank of the host.
use simple_twitter.Common.{
  ℕ, zero, suc, ◌≡◌, refl, some, List, [], ◌∷◌, All, get_elem?, length, ap, done,
}
use simple_twitter.Common.Int.{ℤ, IsInt64}
use simple_twitter.Common.Order.{Bytes, bytes_order}
use simple_twitter.Text.Split.{Lacks, split-append, split-Lacks}
use simple_twitter.Text.Hex.{format_int}
use simple_twitter.Text.Hex.RoundTrip.{parse_int-format_int, Lacks-format_int, tilde-IsSeparator}
use simple_twitter.Search.Sorted.{IsSorted, rank}
use simple_twitter.Search.Rank.{search_loop_full}
use simple_twitter.Lease.{
  format_lease_record, parse_lease_record, host_at, binary_search_lease_record,
}

-- `ParseLeaseRecord` gives back the host and the time that `FormatLeaseRecord` was given, for a host
-- with no tilde in it.
pub parse_lease_record-format_lease_record :
    (hostport : Bytes) (t : ℤ)
    → Lacks b'~' hostport
    → IsInt64 t
    → parse_lease_record (format_lease_record hostport t) ≡ done (hostport, t)
unfolding parse_lease_record format_lease_record
parse_lease_record-format_lease_record hostport t h k = rw (
  split-append b'~' hostport (format_int t) h,
  split-Lacks b'~' (format_int t) (Lacks-format_int b'~' t tilde-IsSeparator),
  parse_int-format_int t k,
)

-- What a list of lease records stands for: the hosts with the times of their leases.
abbrev pub Grants : Type 0
Grants = List (Bytes × ℤ)

abbrev pub hosts : Grants → List Bytes
hosts [] = []
hosts ((hostport, t) ∷ grants) = hostport ∷ hosts grants

abbrev pub records : Grants → List Bytes
records [] = []
records ((hostport, t) ∷ grants) = format_lease_record hostport t ∷ records grants

-- Every host can be read back from its record.
abbrev pub AreReadable : Grants → Type 0
AreReadable = All (λ grant. Lacks b'~' grant.0 × IsInt64 grant.1)

pub length-records : (grants : Grants) → length (records grants) ≡ length (hosts grants)
length-records [] = refl
length-records (grant ∷ grants) = ap suc (length-records grants)

pub host_at-records :
    (grants : Grants) (m : ℕ) (x : Bytes)
    → AreReadable grants
    → get_elem? (hosts grants) m ≡ some x
    → host_at (records grants) m ≡ done x
host_at-records [] m x r e = cc
host_at-records ((hostport, t) ∷ grants) zero x r e =
    rw (parse_lease_record-format_lease_record hostport t r.0.0 r.0.1) (cc)
host_at-records ((hostport, t) ∷ grants) (suc m) x r e = host_at-records grants m x r.1 e

-- `BinarySearchLeaseRecord` returns, and returns the number of hosts less than the host of the record
-- it is given, on records that are ascending by host; the hosts hold no tilde.
pub binary_search_lease_record-rank :
    (grants : Grants) (hostport : Bytes) (t : ℤ)
    → IsSorted (hosts grants)
    → AreReadable grants
    → Lacks b'~' hostport
    → IsInt64 t
    → binary_search_lease_record (records grants) (format_lease_record hostport t)
      ≡ done (rank hostport (hosts grants))
unfolding binary_search_lease_record
binary_search_lease_record-rank grants hostport t s r h k =
    rw (parse_lease_record-format_lease_record hostport t h k, length-records grants)
      (search_loop_full (host_at (records grants)) hostport (hosts grants) s
        (λ m x. host_at-records grants m x r))
