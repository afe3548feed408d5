-- ===== src/StorageServer/Leases/Grants.antt =====
-- What `recordLease` does, told by the hosts and times that the lease records of a key stand for.
use simple_twitter.Common.{
  ℕ, zero, suc, ◌≡◌, refl, ap, false, none, some, [], ◌∷◌, arith, done, if◌then◌else◌, length,
  get_elem?, leb, Bool-cases, inl, inr, get_elem?-in_range, get_elem?-past_end, not, ◌||◌,
}
use simple_twitter.Common.Int.{ℤ, IsInt64}
use simple_twitter.Common.Order.{Bytes, bytes_eqb, bytes_ltb, bytes_order}
use simple_twitter.Common.Map.{lookup, insert}
use simple_twitter.Text.Split.{Lacks}
use simple_twitter.Search.Sorted.{IsSorted, rank}
use simple_twitter.Slices.{insert_at, has, insert_sorted}
use simple_twitter.Slices.Sets.{is_at-rank, insert_sorted-IsSorted}
use simple_twitter.Lease.{format_lease_record}
use simple_twitter.Lease.Records.{
  Grants, hosts, records, AreReadable, length-records, parse_lease_record-format_lease_record,
  binary_search_lease_record-rank,
}
use simple_twitter.StorageServer.State.{StorageServer, Env}
use simple_twitter.StorageServer.Leases.{or_empty, host_before_end, record_lease}

-- The lease records of a key are those of `grants`, ascending by host.
pub record AreGrants (ss : StorageServer) (key : Bytes) (grants : Grants) : Type 0 where
  pub listed : or_empty (lookup key ss.tenants) ≡ records grants
  pub sorted : IsSorted (hosts grants)
  pub readable : AreReadable grants

unfoldable pub insert_grant : Bytes → ℤ → Grants → Grants
insert_grant host t [] = (host, t) ∷ []
insert_grant host t ((h, s) ∷ grants) =
    if bytes_ltb h host then (h, s) ∷ insert_grant host t grants else (host, t) ∷ (h, s) ∷ grants

insert_at-records :
    (host : Bytes) (t : ℤ) (grants : Grants)
    → insert_at (rank host (hosts grants)) (format_lease_record host t) (records grants)
      ≡ done (records (insert_grant host t grants))
unfolding insert_at rank insert_grant
insert_at-records host t [] = refl
insert_at-records host t ((h, s) ∷ grants) = ground (arith, insert_at-records host t grants)

pub hosts-insert_grant :
    (host : Bytes) (t : ℤ) (grants : Grants)
    → hosts (insert_grant host t grants) ≡ insert_sorted host (hosts grants)
unfolding insert_grant insert_sorted
hosts-insert_grant host t [] = refl
hosts-insert_grant host t ((h, s) ∷ grants) = ground (arith, hosts-insert_grant host t grants)

pub insert_grant-AreReadable :
    (host : Bytes) (t : ℤ) (grants : Grants)
    → Lacks b'~' host
    → IsInt64 t
    → AreReadable grants
    → AreReadable (insert_grant host t grants)
unfolding insert_grant
insert_grant-AreReadable host t [] h k r = ((h, k), tt)
insert_grant-AreReadable host t ((g, s) ∷ grants) h k r = elim (Bool-cases (bytes_ltb g host)) [
  | inl below ↦ rw below (r.0, insert_grant-AreReadable host t grants h k r.1)
  | inr above ↦ rw above ((h, k), r)
]

-- The records of a key with those of one more host.
pub insert_grant-AreGrants :
    (host : Bytes) (t : ℤ) (grants : Grants) (ss ss' : StorageServer) (key k : Bytes)
    → AreGrants ss key grants
    → has host (hosts grants) ≡ false
    → Lacks b'~' host
    → IsInt64 t
    → lookup k ss'.tenants ≡ some (records (insert_grant host t grants))
    → AreGrants ss' k (insert_grant host t grants)
insert_grant-AreGrants host t grants ss ss' key k g new h now e = record {
  listed = ap or_empty e;
  sorted = rw hosts-insert_grant (insert_sorted-IsSorted host (hosts grants) g.sorted new);
  readable = insert_grant-AreReadable host t grants h now g.readable;
}

-- The host that `recordLease` compares with its own.
host_before_end-records :
    (grants : Grants) (i : ℕ)
    → AreReadable grants
    → host_before_end (records grants) i
      ≡ done (elim (get_elem? (hosts grants) i) [ none ↦ [] | some host ↦ host ])
unfolding host_before_end
host_before_end-records [] i r = ground arith
host_before_end-records ((h, s) ∷ grants) zero r =
    rw (parse_lease_record-format_lease_record h s r.0.0 r.0.1) (ground arith)
host_before_end-records ((h, s) ∷ grants) (suc i) r =
    ground (arith, host_before_end-records grants i r.1)

-- Only a host with no record gets one; the record of a host that has one is left as it is.
abbrev pub lent : Env → Bytes → Bytes → Grants → StorageServer → StorageServer
lent env key host grants ss = if has host (hosts grants) then ss else record ss {
  tenants = insert key (records (insert_grant host (env.clock 0) grants)) ss.tenants;
}

-- The test of `recordLease` says whether the host has a record already.
is_new-rank :
    (grants : Grants) (host : Bytes)
    → IsSorted (hosts grants)
    → (leb (length (hosts grants)) (rank host (hosts grants))
        || not (
            bytes_eqb
              (elim (get_elem? (hosts grants) (rank host (hosts grants))) [
                | none ↦ []
                | some h ↦ h
              ])
              host))
      ≡ not (has host (hosts grants))
is_new-rank grants host s = ground (
  arith,
  is_at-rank host (hosts grants) s,
  get_elem?-in_range (hosts grants) (rank host (hosts grants)),
  get_elem?-past_end (hosts grants) (rank host (hosts grants)),
)

-- For a key whose lease records are ascending and readable, and a host with no tilde in it,
-- `recordLease` returns: a host with no record gets one with the present time at its place, and a
-- host that has a record keeps the record that it has.
pub record_lease-lent :
    (env : Env) (key host : Bytes) (ss : StorageServer) (grants : Grants)
    → AreGrants ss key grants
    → Lacks b'~' host
    → IsInt64 (env.clock 0)
    → record_lease env key host ss ≡ done (lent env key host grants ss)
unfolding record_lease
record_lease-lent env key host ss grants g h k =
    rw
      (
        g.listed,
        binary_search_lease_record-rank grants host (env.clock 0) g.sorted g.readable h k,
        host_before_end-records grants (rank host (hosts grants)) g.readable,
        length-records grants,
        is_new-rank grants host g.sorted,
        insert_at-records host (env.clock 0) grants,
      )
      (ground arith)
