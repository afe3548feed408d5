-- ===== src/Libstore/Ends.antt =====
-- The second part of a query, the revocation and the recycler keep the invariant, and never panic.
use simple_twitter.Common.{
  done, index, ◌>>=◌, ℕ, ◌≡◌, refl, ◌∙◌, ◌⊎◌, ◌↔◌, inl, inr, Bool, true, false, ◌||◌, not, Option,
  none, some, List, [], arith, Bool-cases, Option-cases, sym, if◌then◌else◌, Returns,
}
use simple_twitter.Common.Order.{Bytes, bytes_eqb_iff, bytes_order}
use simple_twitter.Common.Int.{ℤ}
use simple_twitter.Common.Map.{lookup, insert, delete, lookup-insert, delete_missing}
use simple_twitter.StorageServer.Proto.{Lease, lease_seconds}
use simple_twitter.Libstore.State.{Record, Libstore, LibEnv, write}
use simple_twitter.Libstore.Cache.{record_place, end_query, revoke_lease, recycle, add_query}
use simple_twitter.Libstore.Heap.{add_query-IsUsed, get_elem?-append_new, set-append_new}
use simple_twitter.Libstore.Coherence.{
  IsCoherent, write-IsCoherent, uncache-IsCoherent, cache-IsCoherent, forget-IsCoherent,
  place_record, place_record-IsCoherent, place_cached-IsCoherent, write_own-IsCoherent, written,
}
use simple_twitter.Libstore.Later.{
  IsServed, IsLater, same-IsLater, write-IsLater, place_record-IsLater, IsLater-trans,
}
use simple_twitter.Libstore.Keeps.{is_expired-result}

-- What a reply may rely on: the record that the first part found is on the heap, no other key has it,
-- and the key has a record.
abbrev pub MayEnd : Bytes → Libstore → Option ℕ → Type 0
MayEnd key ls rec = IsServed ls (record { key = key; want_lease = true; rec = rec })

abbrev pub Ends : Bytes → Bool → List Bytes → Libstore → Libstore → Type 0
Ends key want_lease values ls ls' =
    IsCoherent ls'
    × IsLater ls ls'
    × (ls'.cache ≡ (if want_lease then insert key values ls.cache else ls.cache))

end_placed-Ends :
    (env : LibEnv) (key : Bytes) (want_lease : Bool) (lease : Lease) (values : List Bytes)
    (ls : Libstore)
    → IsCoherent ls
    → Returns (end_query env key want_lease none lease values ls) (Ends key want_lease values ls)
unfolding end_query record_place
end_placed-Ends env key true lease values ls c =
    let r : Record = record {
      granted = lease.granted;
      valid_seconds = lease.valid_seconds;
      history = add_query (env.clock 2) [];
    } in
    rw get_elem?-append_new (
      rw set-append_new (
        place_cached-IsCoherent key values r ls c (add_query-IsUsed (env.clock 2) []),
        IsLater-trans ls (place_record key r ls) _ (place_record-IsLater key r ls)
            (same-IsLater _ _ refl refl),
        refl,
      ))
end_placed-Ends env key false lease values ls c =
    let r : Record = record {
      granted = false;
      valid_seconds = lease_seconds;
      history = add_query (env.clock 2) [];
    } in
    rw get_elem?-append_new (
      rw set-append_new (
        place_record-IsCoherent key r ls c (add_query-IsUsed (env.clock 2) []) refl,
        place_record-IsLater key r ls,
        refl,
      ))

end_found-Ends :
    (env : LibEnv) (key : Bytes) (want_lease : Bool) (ref : ℕ) (lease : Lease) (values : List Bytes)
    (ls : Libstore)
    → IsCoherent ls
    → MayEnd key ls (some ref)
    → Returns
        (end_query env key want_lease (some ref) lease values ls)
        (Ends key want_lease values ls)
unfolding end_query record_place
end_found-Ends env key true ref lease values ls c s =
    let ((r, found), own, (place, at)) = s ref refl in
    let used = add_query-IsUsed (env.clock 2) r.history in
    let ls' = record ls { cache = insert key values ls.cache } in
    let c' = cache-IsCoherent key values place ls c at in
    rw found (
      write_own-IsCoherent key ref place _ ls' c' at own used (λ e lent. (
        values,
        lookup-insert key key values ls.cache ∙ rw ((bytes_eqb_iff key key).1 refl) refl,
      )),
      IsLater-trans ls ls' _ (same-IsLater ls ls' refl refl) (write-IsLater ref _ ls'),
      refl,
    )
end_found-Ends env key false ref lease values ls c s =
    let ((r, found), own, (place, at)) = s ref refl in
    let used = add_query-IsUsed (env.clock 2) r.history in
    rw found (
      write_own-IsCoherent key ref place _ ls c at own used
          (λ e lent. c.granted key place r at (rw e found) lent),
      write-IsLater ref _ ls,
      refl,
    )

pub end_query-Ends :
    (env : LibEnv) (key : Bytes) (want_lease : Bool) (rec : Option ℕ) (lease : Lease)
    (values : List Bytes) (ls : Libstore)
    → IsCoherent ls
    → MayEnd key ls rec
    → Returns (end_query env key want_lease rec lease values ls) (Ends key want_lease values ls)
end_query-Ends env key want_lease none lease values ls c s =
    end_placed-Ends env key want_lease lease values ls c
end_query-Ends env key want_lease (some ref) lease values ls c s =
    end_found-Ends env key want_lease ref lease values ls c s

-- What a query leaves as it is.
abbrev pub SamePlace : Libstore → Libstore → Type 0
SamePlace ls ls' =
    (ls'.mode ≡ ls.mode)
    × (ls'.members ≡ ls.members)
    × (ls'.host_port ≡ ls.host_port)
    × (ls'.conns ≡ ls.conns)

indexed-SamePlace :
    (at : Option Record) (f : Record → Libstore) (ls ls' : Libstore)
    → ((r : Record) → SamePlace ls (f r))
    → (index at >>= λ r. done (f r)) ≡ done ls'
    → SamePlace ls ls'
indexed-SamePlace none f ls ls' h e = absurd (cc)
indexed-SamePlace (some r) f ls ls' h e = let same : f r ≡ ls' = cc in rw (← same) (h r)

pub end_query-SamePlace :
    (env : LibEnv) (key : Bytes) (want_lease : Bool) (rec : Option ℕ) (lease : Lease)
    (values : List Bytes) (ls ls' : Libstore)
    → end_query env key want_lease rec lease values ls ≡ done ls'
    → SamePlace ls ls'
unfolding end_query record_place
end_query-SamePlace env key true none lease values ls ls' e =
    indexed-SamePlace _ _ ls ls' (λ r. (refl, refl, refl, refl)) e
end_query-SamePlace env key false none lease values ls ls' e =
    indexed-SamePlace _ _ ls ls' (λ r. (refl, refl, refl, refl)) e
end_query-SamePlace env key true (some ref) lease values ls ls' e =
    indexed-SamePlace _ _ ls ls' (λ r. (refl, refl, refl, refl)) e
end_query-SamePlace env key false (some ref) lease values ls ls' e =
    indexed-SamePlace _ _ ls ls' (λ r. (refl, refl, refl, refl)) e

pub revoke_lease-Revokes :
    (key : Bytes) (ls : Libstore)
    → IsCoherent ls
    → Returns (revoke_lease key ls) (λ out.
      IsCoherent out.0
      × IsLater ls out.0
      × (out.0.cache ≡ delete key ls.cache)
      × ((out.1 ≡ false) ↔ (lookup key ls.cache ≡ none))
      × SamePlace ls out.0)
unfolding revoke_lease
revoke_lease-Revokes key ls c = elim (Option-cases (lookup key ls.cache)) [
  | inl missing ↦
      rw (missing, revoke_lease, Returns)
        (
          c,
          same-IsLater ls ls refl refl,
          sym (delete_missing key ls.cache missing),
          ((λ e. refl), (λ e. refl)),
          (refl, refl, refl, refl),
        )
  | inr (values, there) ↦
      let (ref, at) = c.recorded key values there in
      let (r, found, used) = c.placed key ref at in
      let free = record r { granted = false } in
      let ls' = write ref free ls in
      let c' = write-IsCoherent key ref free ls c at used (λ e. absurd cc) in
      rw (there, revoke_lease, Returns)
        (rw (at, Returns)
          (rw (found, Returns)
            (
              uncache-IsCoherent key ls' c' (λ place r' there' found'.
                  ground
                    (arith, written key ref free ls c at key place there', bytes_eqb_iff key key)),
              IsLater-trans ls ls' _ (write-IsLater ref free ls) (same-IsLater ls' _ refl refl),
              refl,
              ((λ e. absurd cc), (λ e. absurd cc)),
              (refl, refl, refl, refl),
            )))
]

pub recycle-Recycles :
    (now : ℤ) (key : Bytes) (ls : Libstore)
    → IsCoherent ls
    → Returns (recycle now key ls) (λ ls'.
      IsCoherent ls'
      × ((ls' ≡ ls)
          ⊎ (ls' ≡ record ls { cache = delete key ls.cache; records = delete key ls.records })))
unfolding recycle
recycle-Recycles now key ls c = elim (Option-cases (lookup key ls.records)) [
  | inl missing ↦ rw (missing, recycle, Returns) (c, inl refl)
  | inr (ref, at) ↦
      let (r, found, used) = c.placed key ref at in
      let (over, e) = is_expired-result now r used in
      rw (at, recycle, Returns)
        (rw (found, Returns)
          (rw (e, Returns)
            (elim (Bool-cases (over || not r.granted)) [
              | inl ends ↦ rw ends (forget-IsCoherent key ls c, inr refl)
              | inr lives ↦ rw lives (c, inl refl)
            ])))
]
