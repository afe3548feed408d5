-- ===== src/StorageServer/Refinement.antt =====
-- The handlers that change the store have the effects that the specification gives them.
use simple_twitter.Common.{
  ◌≡◌, refl, true, false, Option, some, none, List, [], ◌∷◌, ◌++◌, arith, get_last?, length, done,
  Returns, Bool-cases, inl, inr, get_elem?-in_range, get_elem?-past_end, dec_lt,
}
use simple_twitter.Common.Order.{Bytes, bytes_eqb, bytes_ltb, bytes_order, nat_order}
use simple_twitter.Common.Map.{lookup}
use simple_twitter.Search.Sorted.{IsSorted, rank}
use simple_twitter.Search.Rank.{binary_search_string-rank}
use simple_twitter.Slices.{has, insert_sorted, remove}
use simple_twitter.Slices.Sets.{
  insert_at-rank, is_at-rank, insert_sorted-IsSorted, remove_at-rank, remove-IsSorted,
}
use simple_twitter.Slices.Last.{insert_sorted_last, rank-lt-length, not_has-last}
use simple_twitter.Lease.Records.{Grants}
use simple_twitter.StorageServer.Proto.{ok, key_not_found, item_not_found, item_exists}
use simple_twitter.StorageServer.State.{StorageServer, Env, key_range_contains}
use simple_twitter.StorageServer.Leases.Grants.{AreGrants}
use simple_twitter.StorageServer.Leases.Revoke.{AllAnswer, revoke_lease-revoked}
use simple_twitter.StorageServer.Handlers.{
  put, delete_own, delete_key, append_own, insert_value, append_to_list, exists_at, remove_own,
  remove_from_list, revoke_and_store,
}
use simple_twitter.StorageServer.Invariant.{IsWellFormed}
use simple_twitter.StorageServer.Effects.{
  Serves, put_effect, delete_effect, append_effect, remove_effect, unchanged-Serves, changed-Serves,
  deleted-Serves, first-Serves,
}

-- A list that is not empty has a last element.
last_of : (v : Bytes) (vs : List Bytes) → (last : Bytes) × (get_last? (v ∷ vs) ≡ some last)
last_of v [] = (v, refl)
last_of v (u ∷ vs) = last_of u vs

exists_at-has :
    (val : Bytes) (vs : List Bytes)
    → IsSorted vs
    → exists_at vs (rank val vs) val ≡ done (has val vs)
unfolding exists_at
exists_at-has val vs s = elim (dec_lt (rank val vs) (length vs)) [
  | yes inside ↦
      let (x, at) = get_elem?-in_range vs (rank val vs) inside in
      ground (arith, at, is_at-rank val vs s)
  | no past ↦ ground (arith, get_elem?-past_end vs (rank val vs), is_at-rank val vs s)
]

-- The server holds `grants` for the key, and the key is its own.
module _ (env : Env) (ss : StorageServer) (key : Bytes) (grants : Grants) (w : IsWellFormed ss)
    (g : AreGrants ss key grants) (reachable : AllAnswer env)
    (own : key_range_contains ss key ≡ done true) where
  store-Serves :
      (vs : List Bytes)
      → IsSorted vs
      → Returns
          (revoke_and_store env key vs ss)
          (Serves env ss key grants (record { status = ok; stored = some vs; revokes = true }))
  unfolding revoke_and_store
  store-Serves vs s =
      rw (revoke_lease-revoked env key ss grants g w.clients reachable)
        (changed-Serves env ss w key grants vs s)

  -- On an own key of a well-formed server, where all hosts answer, `Put` returns with status OK: the
  -- key has the one value and its leases are revoked. Connections are opened only to the hosts that
  -- are told; the other keys, the ring, the identifier and the number of servers stay.
  pub put-Serves :
      (val : Bytes)
      → Returns
          (put env (record { key = key; value = val }) ss)
          (Serves env ss key grants (put_effect val (lookup key ss.storage)))
  unfolding put
  put-Serves val = rw own (store-Serves (val ∷ []) (tt, tt))

  delete_own-Serves :
      (old : Option (List Bytes))
      → lookup key ss.storage ≡ old
      → Returns (delete_own env key ss old) (Serves env ss key grants (delete_effect old))
  unfolding delete_own
  delete_own-Serves none e = rw (← e) (unchanged-Serves env ss w key grants key_not_found)
  delete_own-Serves (some vs) e =
      rw (revoke_lease-revoked env key ss grants g w.clients reachable)
        (deleted-Serves env ss w key grants)

  -- On an own key of a well-formed server, where all hosts answer, `Delete` returns: a key that is
  -- there is taken out with status OK and its leases are revoked, for another the status is
  -- KeyNotFound. Connections are opened only to the hosts that are told; the other keys,
  -- the ring, the identifier and the number of servers stay.
  pub delete_key-Serves :
      Returns
        (delete_key env key ss)
        (Serves env ss key grants (delete_effect (lookup key ss.storage)))
  unfolding delete_key
  delete_key-Serves = rw own (delete_own-Serves (lookup key ss.storage) refl)

  insert_value-Serves :
      (val last v : Bytes) (vs : List Bytes)
      → lookup key ss.storage ≡ some (v ∷ vs)
      → get_last? (v ∷ vs) ≡ some last
      → bytes_ltb last val ≡ false
      → Returns
          (insert_value env (record { key = key; value = val }) (v ∷ vs) ss)
          (Serves env ss key grants (append_effect val (some (v ∷ vs))))
  unfolding insert_value
  insert_value-Serves val last v vs e l h =
      let s = w.lists key (v ∷ vs) e in
      let (x, at) =
        get_elem?-in_range (v ∷ vs) (rank val (v ∷ vs)) (rank-lt-length val last (v ∷ vs) l h) in
      let found : bytes_eqb x val ≡ has val (v ∷ vs) =
        ground (arith, at, is_at-rank val (v ∷ vs) s) in
      rw (binary_search_string-rank (v ∷ vs) val s, at, found)
        (elim (Bool-cases (has val (v ∷ vs))) [
          | inl old ↦ rw (old, ← e) (unchanged-Serves env ss w key grants item_exists)
          | inr new ↦
              rw
                (
                  new,
                  revoke_lease-revoked env key ss grants g w.clients reachable,
                  insert_at-rank val (v ∷ vs),
                )
                (changed-Serves env ss w key grants (insert_sorted val (v ∷ vs))
                  (insert_sorted-IsSorted val (v ∷ vs) s new))
        ])

  behind-Serves :
      (val last v : Bytes) (vs : List Bytes)
      → IsSorted (v ∷ vs)
      → get_last? (v ∷ vs) ≡ some last
      → bytes_ltb last val ≡ true
      → Returns
          (revoke_and_store env key ((v ∷ vs) ++ val ∷ []) ss)
          (Serves env ss key grants (append_effect val (some (v ∷ vs))))
  behind-Serves val last v vs s l h =
      let new = not_has-last val last (v ∷ vs) s l h in
      rw (new, ← insert_sorted_last val last (v ∷ vs) s l h)
        (store-Serves (insert_sorted val (v ∷ vs)) (insert_sorted-IsSorted val (v ∷ vs) s new))

  append_own-Serves :
      (val : Bytes) (old : Option (List Bytes))
      → lookup key ss.storage ≡ old
      → Returns
          (append_own env (record { key = key; value = val }) ss old)
          (Serves env ss key grants (append_effect val old))
  unfolding append_own has insert_sorted
  append_own-Serves val none e = first-Serves env ss w key grants val
  append_own-Serves val (some []) e = first-Serves env ss w key grants val
  append_own-Serves val (some (v ∷ vs)) e =
      let s = w.lists key (v ∷ vs) e in
      let (last, l) = last_of v vs in
      rw l (elim (Bool-cases (bytes_ltb last val)) [
        | inl behind ↦ rw behind (behind-Serves val last v vs s l behind)
        | inr inside ↦ rw inside (insert_value-Serves val last v vs e l inside)
      ])

  -- On an own key of a well-formed server, where all hosts answer, AppendToList returns: a new
  -- value goes to its place in the ascending list with status OK, and the leases are revoked if the
  -- list was not empty; a value that is there gives ItemExists and no change. Connections are
  -- opened only to the hosts that are told; the other keys, the ring, the identifier and the number
  -- of servers stay. The server is well-formed again.
  pub append_to_list-Serves :
      (val : Bytes)
      → Returns
          (append_to_list env (record { key = key; value = val }) ss)
          (Serves env ss key grants (append_effect val (lookup key ss.storage)))
  unfolding append_to_list
  append_to_list-Serves val = rw own (append_own-Serves val (lookup key ss.storage) refl)

  remove_own-Serves :
      (val : Bytes) (old : Option (List Bytes))
      → lookup key ss.storage ≡ old
      → Returns
          (remove_own env (record { key = key; value = val }) ss old)
          (Serves env ss key grants (remove_effect val old))
  unfolding remove_own
  remove_own-Serves val none e =
      unfold has in rw (← e) (unchanged-Serves env ss w key grants item_not_found)
  remove_own-Serves val (some []) e =
      unfold has in rw (← e) (unchanged-Serves env ss w key grants item_not_found)
  remove_own-Serves val (some (v ∷ vs)) e =
      let s = w.lists key (v ∷ vs) e in
      rw (binary_search_string-rank (v ∷ vs) val s, exists_at-has val (v ∷ vs) s)
        (elim (Bool-cases (has val (v ∷ vs))) [
          | inl there ↦
              rw
                (
                  there,
                  revoke_lease-revoked env key ss grants g w.clients reachable,
                  remove_at-rank val (v ∷ vs) s there,
                )
                (changed-Serves env ss w key grants (remove val (v ∷ vs))
                  (remove-IsSorted val (v ∷ vs) s))
          | inr missing ↦ rw (missing, ← e) (unchanged-Serves env ss w key grants item_not_found)
        ])

  -- On an own key of a well-formed server, where all hosts answer, RemoveFromList returns: a value
  -- that is there is taken out with status OK and the leases are revoked, another gives
  -- ItemNotFound and no change. Connections are opened only to the hosts that are told; the other
  -- keys, the ring, the identifier and the number of servers stay. The server is well-formed again.
  pub remove_from_list-Serves :
      (val : Bytes)
      → Returns
          (remove_from_list env (record { key = key; value = val }) ss)
          (Serves env ss key grants (remove_effect val (lookup key ss.storage)))
  unfolding remove_from_list
  remove_from_list-Serves val = rw own (remove_own-Serves val (lookup key ss.storage) refl)
