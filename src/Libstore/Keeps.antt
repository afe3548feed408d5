-- ===== src/Libstore/Keeps.antt =====
-- The first part of a query keeps the invariant, and never panics.
use simple_twitter.Common.{
  ℕ, ◌≡◌, refl, inl, inr, Bool, true, false, some, List, [], ◌∷◌, length, Bool-cases, Option-cases,
  sym, done, leb, Returns-map, Returns,
}
use simple_twitter.Common.Order.{Bytes, bytes_order}
use simple_twitter.Common.Int.{ℤ, int_ltb, int_sub}
use simple_twitter.Common.Map.{lookup}
use simple_twitter.Libstore.State.{
  LeaseMode, never, normal, always, Record, Libstore, LibEnv, write,
}
use simple_twitter.Libstore.Cache.{
  Begun, cached, ask, expire, is_expired, is_busy, begin_granted, begin_record, begin_mode,
  begin_query,
}
use simple_twitter.Libstore.Heap.{IsUsed, get_last?-used, add_query-IsUsed}
use simple_twitter.Libstore.Coherence.{IsCoherent, IsCached, write-IsCoherent}
use simple_twitter.Libstore.Later.{IsLater, same-IsLater, write-IsLater, IsLater-trans}

-- What the first part of a query leaves: the values are those of the cache, or the record is that of
-- the table.
abbrev pub Fits : Bytes → Libstore → Begun → Type 0
Fits key ls (cached values) = lookup key ls.cache ≡ some values
Fits key ls (ask want_lease rec) = rec ≡ lookup key ls.records

abbrev pub Begins : Bytes → Libstore → Libstore × Begun → Type 0
Begins key ls (ls', begun) =
    IsCoherent ls'
    × (ls'.cache ≡ ls.cache)
    × (ls'.records ≡ ls.records)
    × IsLater ls ls'
    × Fits key ls begun
    × (ls' ≡ record ls { heap = ls'.heap })

-- The time of the last query lies before the lease's last second.
pub is_expired-result :
    (now : ℤ) (r : Record) → IsUsed r.history → (over : Bool) × (is_expired now r ≡ done over)
unfolding is_expired
is_expired-result now r used =
    let (last, e) = get_last?-used r.history used.0 in
    (int_ltb last (int_sub now r.valid_seconds), rw e refl)

is_busy-result : (now : ℤ) (h : List ℤ) → (b : Bool) × (is_busy now h ≡ done b)
unfolding is_busy
is_busy-result now [] = (false, refl)
is_busy-result now (t ∷ h) = elim (Bool-cases (leb 3 (length (t ∷ h)))) [
  | inl long ↦ (int_ltb (int_sub now 10) t, rw long refl)
  | inr short ↦ (false, rw short refl)
]

expire-IsUsed : (over : Bool) (r : Record) → IsUsed r.history → IsUsed (expire over r).history
expire-IsUsed true r used = used
expire-IsUsed false r used = used

expire-granted : (over : Bool) (r : Record) → (expire over r).granted ≡ true → r.granted ≡ true
expire-granted true r e = absurd cc
expire-granted false r e = e

begin_granted-Begins :
    (env : LibEnv) (key : Bytes) (ref : ℕ) (r : Record) (ls : Libstore)
    → IsCoherent ls
    → lookup key ls.records ≡ some ref
    → IsCached ls key
    → Returns (begin_granted env key ref r ls) (Begins key ls)
unfolding begin_granted
begin_granted-Begins env key ref r ls c at kept =
    rw (kept.1, Returns)
      (
        write-IsCoherent key ref _ ls c at (add_query-IsUsed (env.clock 1) r.history) (λ e. kept),
        refl,
        refl,
        write-IsLater ref _ ls,
        kept.1,
        refl,
      )

begin_record-Begins :
    (env : LibEnv) (key : Bytes) (ref : ℕ) (ls : Libstore)
    → IsCoherent ls
    → lookup key ls.records ≡ some ref
    → Returns (begin_record env key ref ls) (Begins key ls)
unfolding begin_record
begin_record-Begins env key ref ls c at =
    let (r, found, used) = c.placed key ref at in
    let (over, e) = is_expired-result (env.clock 0) r used in
    let r' = expire over r in
    let ls' = write ref r' ls in
    let keeps : (r'.granted ≡ true → IsCached ls key) =
      λ lent. c.granted key ref r at found (expire-granted over r lent) in
    let c' = write-IsCoherent key ref r' ls c at (expire-IsUsed over r used) keeps in
    rw found (
      rw e (elim (Bool-cases r'.granted) [
        | inl lent ↦ rw lent (
            Returns-map (begin_granted env key ref r' ls')
              (λ out b.
                (b.0, b.1, b.2, IsLater-trans ls ls' out.0 (write-IsLater ref r' ls) b.3, b.4, b.5))
              (begin_granted-Begins env key ref r' ls' c' at (keeps lent)))
        | inr free ↦
            let (busy, e') = is_busy-result (env.clock 1) r'.history in
            rw free (rw e' (c', refl, refl, write-IsLater ref r' ls, sym at, refl))
      ]))

begin_mode-Begins :
    (mode : LeaseMode) (env : LibEnv) (key : Bytes) (ls : Libstore)
    → IsCoherent ls
    → Returns (begin_mode mode env key (lookup key ls.records) ls) (Begins key ls)
unfolding begin_mode
begin_mode-Begins never env key ls c = (c, refl, refl, same-IsLater ls ls refl refl, refl, refl)
begin_mode-Begins always env key ls c = (c, refl, refl, same-IsLater ls ls refl refl, refl, refl)
begin_mode-Begins normal env key ls c = elim (Option-cases (lookup key ls.records)) [
  | inl missing ↦ rw missing (c, refl, refl, same-IsLater ls ls refl refl, sym missing, refl)
  | inr (ref, at) ↦ rw at (begin_record-Begins env key ref ls c at)
]

pub begin_query-Begins :
    (env : LibEnv) (key : Bytes) (ls : Libstore)
    → IsCoherent ls
    → Returns (begin_query env key ls) (Begins key ls)
unfolding begin_query
begin_query-Begins env key ls c = begin_mode-Begins ls.mode env key ls c
