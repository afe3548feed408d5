-- ===== src/Libstore/Later.antt =====
-- What a request that waits for its reply relies on: its record is not taken from the heap, and no
-- other key comes to it.
use simple_twitter.Common.{
  ℕ, ◌≡◌, ◌≢◌, refl, ◌∙◌, ◌⊎◌, inl, inr, Bool, Option, none, some, [], ◌∷◌, get_elem?,
  get_elem?-past_end, length, Option-cases, arith, Bool-cases,
}
use simple_twitter.Common.Order.{Bytes, bytes_eqb, bytes_eqb_iff, bytes_order}
use simple_twitter.Common.Map.{lookup, delete, lookup-insert, lookup-delete}
use simple_twitter.Libstore.State.{Record, Libstore, write}
use simple_twitter.Libstore.Heap.{set-keeps, get_elem?-append_old}
use simple_twitter.Libstore.Coherence.{place_record}

-- A later state in which no key has lost its record: a key has the record that it had, or a new one.
pub record IsLater (ls ls' : Libstore) : Type 0 where
  pub kept :
      (ref : ℕ) (r : Record)
      → get_elem? ls.heap ref ≡ some r
      → (r' : Record) × (get_elem? ls'.heap ref ≡ some r')
  pub owned :
      (k : Bytes) (ref : ℕ)
      → lookup k ls'.records ≡ some ref
      → (lookup k ls.records ≡ some ref) ⊎ (get_elem? ls.heap ref ≡ none)
  pub stays :
      (k : Bytes) (ref : ℕ)
      → lookup k ls.records ≡ some ref
      → (place : ℕ) × (lookup k ls'.records ≡ some place)

pub same-IsLater :
    (ls ls' : Libstore) → ls'.heap ≡ ls.heap → ls'.records ≡ ls.records → IsLater ls ls'
same-IsLater ls ls' h t = record {
  kept = λ ref r e. (r, rw h e);
  owned = λ k ref e. inl (rw (← t) e);
  stays = λ k ref e. (ref, rw t e);
}

pub write-IsLater : (ref : ℕ) (r : Record) (ls : Libstore) → IsLater ls (write ref r ls)
write-IsLater ref r ls = record {
  kept = λ place old e. set-keeps ls.heap ref place r old e;
  owned = λ k place e. inl e;
  stays = λ k place e. (place, e);
}

pub place_record-IsLater :
    (key : Bytes) (r : Record) (ls : Libstore) → IsLater ls (place_record key r ls)
place_record-IsLater key r ls =
    let table = λ (k : Bytes). lookup-insert key k (length ls.heap) ls.records in
    record {
      kept = λ ref old e. (old, get_elem?-append_old ls.heap (r ∷ []) ref old e);
      owned = λ k ref e. elim (Bool-cases (bytes_eqb key k)) [
        | inl same ↦
            let new : length ls.heap ≡ ref = ground (arith, table k) in
            inr (rw (← new) (get_elem?-past_end ls.heap (length ls.heap) (omega arith)))
        | inr other ↦ inl (ground (arith, table k))
      ];
      stays = λ k ref e. elim (Bool-cases (bytes_eqb key k)) [
        | inl same ↦ (length ls.heap, table k ∙ rw same refl)
        | inr other ↦ (ref, table k ∙ rw other e)
      ];
    }

pub IsLater-trans : (a b c : Libstore) → IsLater a b → IsLater b c → IsLater a c
IsLater-trans a b c ab bc = record {
  kept = λ ref r e. let (r', e') = ab.kept ref r e in bc.kept ref r' e';
  owned = λ k ref e. elim (bc.owned k ref e) [
    | inl before ↦ ab.owned k ref before
    | inr fresh ↦ elim (Option-cases (get_elem? a.heap ref)) [
      | inl missing ↦ inr missing
      | inr (r, there) ↦ ground (arith, ab.kept ref r there)
    ]
  ];
  stays = λ k ref e. let (place, e') = ab.stays k ref e in bc.stays k place e';
}

-- A request that waits: its key, whether it asked for a lease, and the record that it found.
pub record Request : Type 0 where
  pub key : Bytes
  pub want_lease : Bool
  pub rec : Option ℕ

-- If it found a record then that is on the heap, no other key has it, and its key has a record.
abbrev pub IsServed : Libstore → Request → Type 0
IsServed ls q =
    (ref : ℕ)
    → q.rec ≡ some ref
    → ((r : Record) × (get_elem? ls.heap ref ≡ some r))
      × ((k : Bytes) → lookup k ls.records ≡ some ref → k ≡ q.key)
      × ((place : ℕ) × (lookup q.key ls.records ≡ some place))

pub later-IsServed :
    (ls ls' : Libstore) (q : Request) → IsLater ls ls' → IsServed ls q → IsServed ls' q
later-IsServed ls ls' q l s ref e =
    let old = s ref e in
    (
      l.kept ref old.0.0 old.0.1,
      (λ k here. elim (l.owned k ref here) [
        | inl before ↦ old.1 k before
        | inr fresh ↦ ground (arith, old.0.1)
      ]),
      l.stays q.key old.2.0 old.2.1,
    )

-- A key that no request is for may lose its record.
pub forget-IsServed :
    (key : Bytes) (ls : Libstore) (q : Request)
    → q.key ≢ key
    → IsServed ls q
    → IsServed (record ls { cache = delete key ls.cache; records = delete key ls.records }) q
forget-IsServed key ls q apart s ref e =
    let old = s ref e in
    (
      old.0,
      (λ k here. old.1 k (ground (arith, lookup-delete key k ls.records))),
      (
        old.2.0,
        ground (arith, lookup-delete key q.key ls.records, bytes_eqb_iff key q.key, old.2.1),
      ),
    )
