-- ===== src/Libstore/Policy.antt =====
-- src/libstore/libstore_impl.go: when a query is answered from the cache, and when it asks for a lease.
use simple_twitter.Common.{
  ℕ, suc, ◌≤◌, ◌≡◌, refl, Bool, true, false, Option, none, some, List, [], ◌∷◌, get_elem?,
  get_last?, length, leb, arith, Bool-cases, inl, inr, done, Returns, if◌then◌else◌, ◌&&◌, not,
  Option-cases,
}
use simple_twitter.Common.Order.{Bytes, bytes_order}
use simple_twitter.Common.Int.{ℤ, pos, negsuc, int_ltb, int_sub}
use simple_twitter.Common.Map.{lookup}
use simple_twitter.StorageServer.Proto.{query_cache_seconds, query_cache_thresh}
use simple_twitter.Libstore.State.{LeaseMode, never, normal, always, Record, Libstore, LibEnv}
use simple_twitter.Libstore.Cache.{
  Begun, cached, ask, begin_query, begin_mode, begin_record, begin_granted, is_busy, is_expired,
}
use simple_twitter.Libstore.Heap.{IsUsed, get_last?-used}
use simple_twitter.Libstore.Coherence.{IsCoherent, IsCached}

-- The queries of the last ten seconds.
abbrev pub recent : ℤ → List ℤ → ℕ
recent now [] = 0
recent now (t ∷ history) =
    if int_ltb (int_sub now query_cache_seconds) t
    then suc (recent now history)
    else recent now history

-- The times do not go back.
abbrev pub IsAscending : List ℤ → Type 0
IsAscending [] = Unit
IsAscending (t ∷ []) = Unit
IsAscending (t ∷ u ∷ history) = (int_ltb u t ≡ false) × IsAscending (u ∷ history)

later_than : (x t u : ℤ) → int_ltb x t ≡ true → int_ltb u t ≡ false → int_ltb x u ≡ true
unfolding int_ltb
later_than (pos x) (pos t) (pos u) h k = ground arith
later_than (pos x) (pos t) (negsuc u) h k = absurd cc
later_than (pos x) (negsuc t) u h k = absurd cc
later_than (negsuc x) (pos t) (pos u) h k = refl
later_than (negsuc x) (pos t) (negsuc u) h k = absurd cc
later_than (negsuc x) (negsuc t) (pos u) h k = refl
later_than (negsuc x) (negsuc t) (negsuc u) h k = ground arith

recent-at_most : (now : ℤ) (history : List ℤ) → recent now history ≤ length history
recent-at_most now [] = omega arith
recent-at_most now (t ∷ history) = ground (arith, recent-at_most now history)

-- If the first query is recent, all are.
recent-all :
    (now t : ℤ) (history : List ℤ)
    → IsAscending (t ∷ history)
    → int_ltb (int_sub now query_cache_seconds) t ≡ true
    → recent now (t ∷ history) ≡ suc (length history)
recent-all now t [] a h = ground arith
recent-all now t (u ∷ history) a h = ground (
  arith,
  later_than (int_sub now query_cache_seconds) t u h a.0,
  recent-all now u history a.1 (later_than (int_sub now query_cache_seconds) t u h a.0),
)

is_busy-recent :
    (now : ℤ) (history : List ℤ)
    → length history ≤ query_cache_thresh
    → IsAscending history
    → is_busy now history ≡ done (leb query_cache_thresh (recent now history))
unfolding is_busy
is_busy-recent now [] short a = refl
is_busy-recent now (t ∷ history) short a =
    ground (arith, recent-at_most now history, recent-all now t history a)

-- The record of a key.
abbrev pub record_of : Bytes → Libstore → Option Record
record_of key ls = elim (lookup key ls.records) [ none ↦ none | some ref ↦ get_elem? ls.heap ref ]

abbrev pub values_of : Option (List Bytes) → List Bytes
values_of none = []
values_of (some values) = values

-- The last query is not longer ago than the lease is valid.
abbrev pub is_live : ℤ → Record → Bool
is_live now r = elim (get_last? r.history) [
  | none ↦ false
  | some t ↦ not (int_ltb t (int_sub now r.valid_seconds))
]

-- The answer to a query, told by the mode, the key's record and the three last times of a query.
abbrev pub decision : LibEnv → LeaseMode → Option ℕ → Option Record → List Bytes → Begun
decision env never rec r values = ask false rec
decision env always rec r values = ask true rec
decision env normal rec none values = ask false rec
decision env normal rec (some r) values =
    if r.granted && is_live (env.clock 0) r
    then cached values
    else ask (leb query_cache_thresh (recent (env.clock 1) r.history)) rec

begin_record-decides :
    (env : LibEnv) (key : Bytes) (ref : ℕ) (r : Record) (ls : Libstore)
    → IsUsed r.history
    → get_elem? ls.heap ref ≡ some r
    → IsAscending r.history
    → (r.granted ≡ true → IsCached ls key)
    → Returns
        (begin_record env key ref ls)
        (λ out. out.1 ≡ decision env normal (some ref) (some r) (values_of (lookup key ls.cache)))
unfolding begin_record is_expired begin_granted
begin_record-decides env key ref r ls used found a keeps =
    let (t, last) = get_last?-used r.history used.0 in
    rw found (
      rw last (elim (Bool-cases (int_ltb t (int_sub (env.clock 0) r.valid_seconds))) [
        | inl over ↦ rw over (
            rw (is_busy-recent (env.clock 1) r.history used.1 a)
              (ground (arith, last, over, Bool-cases r.granted)))
        | inr live ↦ rw live (elim (Bool-cases r.granted) [
          | inl lent ↦ rw lent (rw ((keeps lent).1, Returns) (ground (arith, last, live)))
          | inr free ↦ rw free (rw (is_busy-recent (env.clock 1) r.history used.1 a) (ground arith))
        ])
      ]))

begin_missing-decides :
    (mode : LeaseMode) (env : LibEnv) (key : Bytes) (ls : Libstore)
    → Returns
        (begin_mode mode env key none ls)
        (λ out. out.1 ≡ decision env mode none none (values_of (lookup key ls.cache)))
unfolding begin_mode
begin_missing-decides never env key ls = refl
begin_missing-decides always env key ls = refl
begin_missing-decides normal env key ls = refl

begin_found-decides :
    (mode : LeaseMode) (env : LibEnv) (key : Bytes) (ref : ℕ) (r : Record) (ls : Libstore)
    → Returns
        (begin_record env key ref ls)
        (λ out. out.1 ≡ decision env normal (some ref) (some r) (values_of (lookup key ls.cache)))
    → Returns
        (begin_mode mode env key (some ref) ls)
        (λ out. out.1 ≡ decision env mode (some ref) (some r) (values_of (lookup key ls.cache)))
unfolding begin_mode
begin_found-decides never env key ref r ls h = refl
begin_found-decides always env key ref r ls h = refl
begin_found-decides normal env key ref r ls h = h

-- For a coherent libstore in which the queries of the key are in the order of their times, the first
-- part of a query returns, with what its mode and the key's record decide: Never asks without a wish
-- for a lease, Always with one; Normal gives the cached values if the record is granted and its last
-- query is not longer ago than the lease is valid, and otherwise asks, for a lease just if there were
-- three queries in the last ten seconds.
pub begin_query-decides :
    (env : LibEnv) (key : Bytes) (ls : Libstore)
    → IsCoherent ls
    → ((r : Record) → record_of key ls ≡ some r → IsAscending r.history)
    → Returns (begin_query env key ls) (λ out.
      out.1
      ≡ decision env ls.mode
          (lookup key ls.records)
          (record_of key ls)
          (values_of (lookup key ls.cache)))
unfolding begin_query
begin_query-decides env key ls c a = elim (Option-cases (lookup key ls.records)) [
  | inl missing ↦ rw (missing, record_of) (begin_missing-decides ls.mode env key ls)
  | inr (ref, at) ↦
      let (r, found, used) = c.placed key ref at in
      let ordered : IsAscending r.history = a r (rw (at, record_of) found) in
      rw (at, record_of)
        (rw (found, decision)
          (begin_found-decides ls.mode env key ref r ls (
            begin_record-decides env key ref r ls used found ordered
              (c.granted key ref r at found))))
]
