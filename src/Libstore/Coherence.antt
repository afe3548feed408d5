-- ===== src/Libstore/Coherence.antt =====
-- The invariant between the cache of a libstore and its lease records, and the changes of the state
-- that keep it.
use simple_twitter.Common.{
  ℕ, ◌==◌, ◌≡◌, ◌≢◌, refl, sym, ◌∙◌, true, false, some, List, [], ◌∷◌, get_elem?, length,
  get_elem?-past_end, arith, Bool-cases, if◌then◌else◌, inl, inr,
}
use simple_twitter.Common.Order.{Bytes, bytes_eqb, bytes_eqb_iff, bytes_order}
use simple_twitter.Common.Map.{lookup, insert, delete, lookup-insert, lookup-delete}
use simple_twitter.Libstore.State.{Record, Libstore, allocate, write}
use simple_twitter.Libstore.Heap.{
  IsUsed, get_elem?-set_same, get_elem?-set_other, get_elem?-append_old, get_elem?-append_new,
  set-append_new,
}

-- The key has values in the cache.
abbrev pub IsCached : Libstore → Bytes → Type 0
IsCached ls key = (values : List Bytes) × (lookup key ls.cache ≡ some values)

pub record IsCoherent (ls : Libstore) : Type 0 where
  pub placed :
      (k : Bytes) (ref : ℕ)
      → lookup k ls.records ≡ some ref
      → (r : Record) × (get_elem? ls.heap ref ≡ some r) × IsUsed r.history
  pub recorded :
      (k : Bytes) (values : List Bytes)
      → lookup k ls.cache ≡ some values
      → (ref : ℕ) × (lookup k ls.records ≡ some ref)
  pub granted :
      (k : Bytes) (ref : ℕ) (r : Record)
      → lookup k ls.records ≡ some ref
      → get_elem? ls.heap ref ≡ some r
      → r.granted ≡ true
      → IsCached ls k
  pub unshared :
      (k j : Bytes) (ref : ℕ)
      → lookup k ls.records ≡ some ref
      → lookup j ls.records ≡ some ref
      → k ≡ j

-- Only the record of the key itself changes by a write to it.
pub written :
    (key : Bytes) (ref : ℕ) (r : Record) (ls : Libstore)
    → IsCoherent ls
    → lookup key ls.records ≡ some ref
    → (k : Bytes) (place : ℕ) → lookup k ls.records ≡ some place
    → get_elem? (write ref r ls).heap place
      ≡ (if bytes_eqb key k then some r else get_elem? ls.heap place)
written key ref r ls c at k place there = elim (Bool-cases (bytes_eqb key k)) [
  | inl same ↦
      let old = c.placed key ref at in
      ground (arith, (bytes_eqb_iff key k).0 same, get_elem?-set_same ls.heap ref r old.0 old.1)
  | inr other ↦
      let apart : ref ≢ place = λ e. ground (arith, c.unshared key k ref at, bytes_eqb_iff key k) in
      rw other (get_elem?-set_other ls.heap ref place r apart)
]

-- A write to the record of a key.
pub write-IsCoherent :
    (key : Bytes) (ref : ℕ) (r : Record) (ls : Libstore)
    → IsCoherent ls
    → lookup key ls.records ≡ some ref
    → IsUsed r.history
    → (r.granted ≡ true → IsCached ls key)
    → IsCoherent (write ref r ls)
write-IsCoherent key ref r ls c at used keeps = record {
  placed = λ k place there. elim (Bool-cases (bytes_eqb key k)) [
    | inl same ↦ (r, written key ref r ls c at k place there ∙ rw same refl, used)
    | inr other ↦
        let old = c.placed k place there in
        (old.0, written key ref r ls c at k place there ∙ rw other old.1, old.2)
  ];
  recorded = c.recorded;
  granted = λ k place r' there found lent. elim (Bool-cases (bytes_eqb key k)) [
    | inl same ↦
        let r-r' : r ≡ r' = ground (arith, written key ref r ls c at k place there) in
        let key-k : key ≡ k = (bytes_eqb_iff key k).0 same in rw (← key-k) (keeps (rw r-r' lent))
    | inr other ↦
        c.granted k place r' there (ground (arith, written key ref r ls c at k place there)) lent
  ];
  unshared = c.unshared;
}

-- The values of a key leave the cache, where its record is not granted.
pub uncache-IsCoherent :
    (key : Bytes) (ls : Libstore)
    → IsCoherent ls
    → ((ref : ℕ) (r : Record)
        → lookup key ls.records ≡ some ref
        → get_elem? ls.heap ref ≡ some r
        → r.granted ≡ false)
    → IsCoherent (record ls { cache = delete key ls.cache })
uncache-IsCoherent key ls c ended = record {
  placed = c.placed;
  recorded = λ k values e. c.recorded k values (ground (arith, lookup-delete key k ls.cache));
  granted = λ k place r there found lent. elim (Bool-cases (bytes_eqb key k)) [
    | inl same ↦ let key-k : key ≡ k = (bytes_eqb_iff key k).0 same in ground (arith, ended place r)
    | inr other ↦
        let old = c.granted k place r there found lent in
        (old.0, lookup-delete key k ls.cache ∙ rw other old.1)
  ];
  unshared = c.unshared;
}

-- The cache takes values for a key that has a record.
pub cache-IsCoherent :
    (key : Bytes) (values : List Bytes) (ref : ℕ) (ls : Libstore)
    → IsCoherent ls
    → lookup key ls.records ≡ some ref
    → IsCoherent (record ls { cache = insert key values ls.cache })
cache-IsCoherent key values ref ls c at = record {
  placed = c.placed;
  recorded = λ k vs e. elim (Bool-cases (bytes_eqb key k)) [
    | inl same ↦ (ref, rw (← (bytes_eqb_iff key k).0 same) at)
    | inr other ↦ c.recorded k vs (ground (arith, lookup-insert key k values ls.cache))
  ];
  granted = λ k place r there found lent. elim (Bool-cases (bytes_eqb key k)) [
    | inl same ↦ (values, lookup-insert key k values ls.cache ∙ rw same refl)
    | inr other ↦
        let old = c.granted k place r there found lent in
        (old.0, lookup-insert key k values ls.cache ∙ rw other old.1)
  ];
  unshared = c.unshared;
}

-- A key loses its values and its record.
pub forget-IsCoherent :
    (key : Bytes) (ls : Libstore)
    → IsCoherent ls
    → IsCoherent (record ls { cache = delete key ls.cache; records = delete key ls.records })
forget-IsCoherent key ls c = record {
  placed = λ k place there. c.placed k place (ground (arith, lookup-delete key k ls.records));
  recorded = λ k values e.
      let old = c.recorded k values (ground (arith, lookup-delete key k ls.cache)) in
      (old.0, ground (arith, lookup-delete key k ls.cache, lookup-delete key k ls.records, old.1));
  granted = λ k place r there found lent.
      let old = c.granted k place r (ground (arith, lookup-delete key k ls.records)) found lent in
      (old.0, ground (arith, lookup-delete key k ls.cache, lookup-delete key k ls.records, old.1));
  unshared = λ k j place there too.
      c.unshared k j place (ground (arith, lookup-delete key k ls.records))
        (ground (arith, lookup-delete key j ls.records));
}

-- A new record for a key, not granted, takes a new place.
abbrev pub place_record : Bytes → Record → Libstore → Libstore
place_record key r ls = record (allocate r ls) { records = insert key (length ls.heap) ls.records }

pub place_record-IsCoherent :
    (key : Bytes) (r : Record) (ls : Libstore)
    → IsCoherent ls
    → IsUsed r.history
    → r.granted ≡ false
    → IsCoherent (place_record key r ls)
place_record-IsCoherent key r ls c used free =
    let fresh : (k : Bytes) → lookup k ls.records ≢ some (length ls.heap) =
      λ k e. ground (arith, c.placed k _ e, get_elem?-past_end ls.heap (length ls.heap)) in
    let table = λ (k : Bytes). lookup-insert key k (length ls.heap) ls.records in
    record {
      placed = λ k place there. elim (Bool-cases (bytes_eqb key k)) [
        | inl same ↦
            let new : length ls.heap ≡ place = ground (arith, table k) in
            (r, rw (← new) (get_elem?-append_new ls.heap r), used)
        | inr other ↦
            let old = c.placed k place (ground (arith, table k)) in
            (old.0, get_elem?-append_old ls.heap (r ∷ []) place old.0 old.1, old.2)
      ];
      recorded = λ k values e. elim (Bool-cases (bytes_eqb key k)) [
        | inl same ↦ (length ls.heap, table k ∙ rw same refl)
        | inr other ↦ let old = c.recorded k values e in (old.0, table k ∙ rw other old.1)
      ];
      granted = λ k place r' there found lent. elim (Bool-cases (bytes_eqb key k)) [
        | inl same ↦
            let new : length ls.heap ≡ place = ground (arith, table k) in
            ground (arith, get_elem?-append_new ls.heap r)
        | inr other ↦
            let before : lookup k ls.records ≡ some place = ground (arith, table k) in
            let old = c.placed k place before in
            c.granted k place r' before
              (ground (arith, get_elem?-append_old ls.heap (r ∷ []) place old.0 old.1, old.1)) lent
      ];
      unshared = λ k j place there too. ground (
        arith,
        table k,
        table j,
        fresh k,
        fresh j,
        c.unshared k j place,
        bytes_eqb_iff key k,
        bytes_eqb_iff key j,
      );
    }

-- A write to a record that at most the key has, where the key has one.
pub write_own-IsCoherent :
    (key : Bytes) (ref place : ℕ) (r : Record) (ls : Libstore)
    → IsCoherent ls
    → lookup key ls.records ≡ some place
    → ((k : Bytes) → lookup k ls.records ≡ some ref → k ≡ key)
    → IsUsed r.history
    → (place ≡ ref → r.granted ≡ true → IsCached ls key)
    → IsCoherent (write ref r ls)
write_own-IsCoherent key ref place r ls c at own used keeps = elim (Bool-cases (place == ref)) [
  | inl same ↦
      let e : place ≡ ref = ground arith in
      write-IsCoherent key ref r ls c (rw (← e) at) used (keeps e)
  | inr other ↦
      let apart : (k : Bytes) (i : ℕ) → lookup k ls.records ≡ some i → ref ≢ i =
        λ k i there e. let k-key : k ≡ key = own k (rw e there) in ground arith in
      let untouched : (k : Bytes) (i : ℕ)
          → lookup k ls.records ≡ some i
          → get_elem? (write ref r ls).heap i ≡ get_elem? ls.heap i =
        λ k i there. get_elem?-set_other ls.heap ref i r (apart k i there) in
      record {
        placed = λ k i there.
            let old = c.placed k i there in (old.0, untouched k i there ∙ old.1, old.2);
        recorded = c.recorded;
        granted = λ k i r' there found. c.granted k i r' there (sym (untouched k i there) ∙ found);
        unshared = c.unshared;
      }
]

-- A new record for a key, perhaps granted, with values for the cache.
pub place_cached-IsCoherent :
    (key : Bytes) (values : List Bytes) (r : Record) (ls : Libstore)
    → IsCoherent ls
    → IsUsed r.history
    → IsCoherent (record (place_record key r ls) { cache = insert key values ls.cache })
place_cached-IsCoherent key values r ls c used =
    let free = record r { granted = false } in
    let n = length ls.heap in
    let at : lookup key (place_record key free ls).records ≡ some n =
      ground (arith, lookup-insert key key n ls.records, bytes_eqb_iff key key) in
    let c' =
      cache-IsCoherent key values n (place_record key free ls)
        (place_record-IsCoherent key free ls c used refl) at in
    rw (← set-append_new ls.heap free r) (
      write-IsCoherent key n r _ c' at used (λ e.
        (values, ground (arith, lookup-insert key key values ls.cache, bytes_eqb_iff key key))))
