-- ===== src/Libstore/Cache.antt =====
-- src/libstore/libstore_impl.go: what `Get` and `GetList` do under the lock before they call the
-- storage server and after its reply, and the two that take leases away, `RevokeLease` and a step of
-- `cacheRecycler`.
use simple_twitter.Common.{
  ℕ, ◌-◌, ◌||◌, Bool, true, false, not, Option, none, some, List, [], ◌∷◌, ◌++◌, length, ltb, leb,
  drop, get_elem?, get_last?, Outcome, done, fatal, index, ◌>>=◌, if◌then◌else◌,
}
use simple_twitter.Common.Int.{ℤ, int_ltb, int_sub}
use simple_twitter.Common.Order.{Bytes, bytes_order}
use simple_twitter.Common.Map.{lookup, insert, delete}
use simple_twitter.StorageServer.Proto.{
  Lease, query_cache_thresh, query_cache_seconds, lease_seconds,
}
use simple_twitter.Libstore.State.{
  LeaseMode, never, normal, always, Record, Libstore, LibEnv, allocate, write,
}

-- A query goes into the history, which keeps the last three.
unfoldable pub add_query : ℤ → List ℤ → List ℤ
add_query now history =
    let longer = history ++ now ∷ [] in
    if ltb query_cache_thresh (length longer)
    then drop (length longer - query_cache_thresh) longer
    else longer

-- `rec.history[len(rec.history)-1] < time.Now().Unix()-int64(rec.ValidSeconds)`
unfoldable pub is_expired : ℤ → Record → Outcome Bool
is_expired now r = do
  last ← index (get_last? r.history)
  done (int_ltb last (int_sub now r.valid_seconds))

-- Three queries in the last ten seconds.
unfoldable pub is_busy : ℤ → List ℤ → Outcome Bool
is_busy now history =
    if leb query_cache_thresh (length history)
    then (do
      first ← index (get_elem? history 0)
      done (int_ltb (int_sub now query_cache_seconds) first))
    else done false

-- How the first part ends: with the values of the cache, or with a request to be sent, for which it
-- remembers the record it found.
pub data Begun : Type 0 where
  cached : List Bytes → Begun
  ask : (want_lease : Bool) → (rec : Option ℕ) → Begun

-- The record with its lease taken back if it is over.
abbrev pub expire : Bool → Record → Record
expire over r = if over then record r { granted = false } else r

unfoldable pub begin_granted : LibEnv → Bytes → ℕ → Record → Libstore → Outcome (Libstore × Begun)
unfolding add_query
begin_granted env key ref r ls =
    let ls' = write ref (record r { history = add_query (env.clock 1) r.history }) ls in
    elim (lookup key ls.cache) [ none ↦ fatal | some values ↦ done (ls', cached values) ]

-- The `default` case of the `switch`, for a key with a record.
unfoldable pub begin_record : LibEnv → Bytes → ℕ → Libstore → Outcome (Libstore × Begun)
unfolding is_expired is_busy begin_granted
begin_record env key ref ls = do
  r ← index (get_elem? ls.heap ref)
  over ← is_expired (env.clock 0) r
  let r' = expire over r
  let ls' = write ref r' ls
  if r'.granted
      then begin_granted env key ref r' ls'
      else (do busy ← is_busy (env.clock 1) r'.history; done (ls', ask busy (some ref)))

unfoldable pub begin_mode :
    LeaseMode → LibEnv → Bytes → Option ℕ → Libstore → Outcome (Libstore × Begun)
unfolding begin_record
begin_mode never env key rec ls = done (ls, ask false rec)
begin_mode always env key rec ls = done (ls, ask true rec)
begin_mode normal env key none ls = done (ls, ask false none)
begin_mode normal env key (some ref) ls = begin_record env key ref ls

unfoldable pub begin_query : LibEnv → Bytes → Libstore → Outcome (Libstore × Begun)
unfolding begin_mode
begin_query env key ls = begin_mode ls.mode env key (lookup key ls.records) ls

-- The place of the record that the first part found, or of a new one, which goes into the table.
unfoldable pub record_place : Bytes → Option ℕ → Libstore → ℕ × Libstore
record_place key (some ref) ls = (ref, ls)
record_place key none ls =
    let ref = length ls.heap in
    let ls' =
      allocate (record { granted = false; valid_seconds = lease_seconds; history = [] }) ls in
    (ref, record ls' { records = insert key ref ls'.records })

-- The second part, on a reply with status OK: the query is counted, and if a lease was asked for, the
-- lease and the values of the reply are kept.
unfoldable pub end_query :
    LibEnv → Bytes → Bool → Option ℕ → Lease → List Bytes → Libstore → Outcome Libstore
unfolding record_place add_query
end_query env key want_lease rec lease values ls =
    let (ref, ls') = record_place key rec ls in
    index (get_elem? ls'.heap ref) >>= λ r.
    let r' = record r { history = add_query (env.clock 2) r.history } in
    done (
      if want_lease
      then record (write ref
          (record r' { granted = lease.granted; valid_seconds = lease.valid_seconds }) ls') {
            cache = insert key values ls'.cache;
          }
      else write ref r' ls')

-- Whether `RevokeLease` replies OK or KeyNotFound comes back as a Boolean. `ls.records[key]` is a nil
-- pointer where there is no record.
unfoldable pub revoke_lease : Bytes → Libstore → Outcome (Libstore × Bool)
revoke_lease key ls = elim (lookup key ls.cache) [
  | none ↦ done (ls, false)
  | some values ↦ index (lookup key ls.records) >>= λ ref. index (get_elem? ls.heap ref) >>= λ r.
      done
        (write ref (record r { granted = false }) (record ls { cache = delete key ls.cache }), true)
]

-- One round of the recycler, for the key that it has come to.
unfoldable pub recycle : ℤ → Bytes → Libstore → Outcome Libstore
unfolding is_expired
recycle now key ls = elim (lookup key ls.records) [
  | none ↦ done ls
  | some ref ↦ index (get_elem? ls.heap ref) >>= λ r. is_expired now r >>= λ over. done (
      if over || not r.granted
      then record ls { cache = delete key ls.cache; records = delete key ls.records }
      else ls)
]
