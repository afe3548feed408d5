-- ===== src/StwServer/Users.antt =====
-- src/stwserver/stwserver_impl.go: `CreateUser`, `Subscribe` and `Unsubscribe`.
use simple_twitter.Common.{
  ◌&&◌, ◌≡◌, Bool, true, false, not, none, some, [], ◌∷◌, if◌then◌else◌, arith,
}
use simple_twitter.Common.Order.{Bytes, bytes_order}
use simple_twitter.Keys.{format_user_key, format_sub_list_key}
use simple_twitter.Slices.{has}
use simple_twitter.StwServer.Membership.{Status, ok, no_such_user, no_such_target_user, exists}
use simple_twitter.StwServer.Store.{
  StoreOps, Contents, list_of, updated, appended, removed, IsStore,
}

module _ {S : Type 0} (ops : StoreOps S) where
  unfoldable pub create_user : Bytes → S → Status × S
  create_user user_id s =
      let key = format_user_key user_id in
      let (found, s1) = ops.get key s in
      elim found [ some v ↦ (exists, s1) | none ↦ (ok, (ops.put key [] s1).1) ]

  unfoldable pub subscribe : Bytes → Bytes → S → Status × S
  subscribe user_id target_id s =
      let (user, s1) = ops.get (format_user_key user_id) s in
      elim user [
        | none ↦ (no_such_user, s1)
        | some v ↦
            let (target, s2) = ops.get (format_user_key target_id) s1 in
            elim target [
              | none ↦ (no_such_target_user, s2)
              | some w ↦
                  let (done_so, s3) =
                    ops.append_to_list (format_sub_list_key user_id) target_id s2 in
                  (if done_so then ok else exists, s3)
            ]
      ]

  unfoldable pub unsubscribe : Bytes → Bytes → S → Status × S
  unsubscribe user_id target_id s =
      let (user, s1) = ops.get (format_user_key user_id) s in
      elim user [
        | none ↦ (no_such_user, s1)
        | some v ↦
            let (target, s2) = ops.get (format_user_key target_id) s1 in
            elim target [
              | none ↦ (no_such_target_user, s2)
              | some w ↦
                  let (done_so, s3) =
                    ops.remove_from_list (format_sub_list_key user_id) target_id s2 in
                  (if done_so then ok else no_such_target_user, s3)
            ]
      ]

module _ {S : Type 0} (ops : StoreOps S) (contents : S → Contents)
    (store : IsStore ops contents) where
  abbrev pub is_user : S → Bytes → Bool
  is_user s id = elim (contents s (format_user_key id)) [ none ↦ false | some vs ↦ true ]

  -- Over a store that does what its operations promise, CreateUser replies Exists for a user that
  -- exists and changes nothing, and otherwise OK, and the record of the user is there, with the empty
  -- string, while all other keys stay.
  pub create_user-Creates :
      (user_id : Bytes) (s : S) (k : Bytes)
      → ((create_user ops user_id s).0 ≡ (if is_user s user_id then exists else ok))
        × (contents (create_user ops user_id s).1 k ≡ (
            if is_user s user_id
            then contents s k
            else updated (format_user_key user_id) ([] ∷ []) (contents s) k))
  unfolding create_user
  create_user-Creates user_id s k = ground (
    arith,
    store.gets (format_user_key user_id) s,
    store.get_keeps (format_user_key user_id) s k,
    store.puts (format_user_key user_id) [] (ops.get (format_user_key user_id) s).1 k,
  )

  -- The reply where a user may be missing; `outcome` is that for two users that exist.
  abbrev pub reply_of : S → Bytes → Bytes → Status → Status
  reply_of s user_id target_id outcome =
      if not (is_user s user_id)
      then no_such_user
      else if not (is_user s target_id)
      then no_such_target_user
      else outcome

  abbrev pub follows : S → Bytes → Bytes → Bool
  follows s user_id target_id = has target_id (list_of (contents s (format_sub_list_key user_id)))

  -- Over a store that does what its operations promise, Subscribe of two users that exist puts the
  -- target into the user's ordered list of subscriptions and replies OK, or Exists if it is there
  -- already; where one of the users does not exist it says which, and nothing changes. All other keys
  -- stay.
  pub subscribe-Subscribes :
      (user_id target_id : Bytes) (s : S) (k : Bytes)
      → ((subscribe ops user_id target_id s).0
          ≡ reply_of s user_id target_id (if follows s user_id target_id then exists else ok))
        × (contents (subscribe ops user_id target_id s).1 k ≡ (
            if is_user s user_id && is_user s target_id
            then appended (format_sub_list_key user_id) target_id (contents s) k
            else contents s k))
  unfolding subscribe
  subscribe-Subscribes user_id target_id s k =
      let u = format_user_key user_id in
      let t = format_user_key target_id in
      let l = format_sub_list_key user_id in
      let s1 = (ops.get u s).1 in
      let s2 = (ops.get t s1).1 in
      ground (
        arith,
        store.gets u s,
        store.get_keeps u s k,
        store.get_keeps u s t,
        store.get_keeps u s l,
        store.gets t s1,
        store.get_keeps t s1 k,
        store.get_keeps t s1 l,
        store.append_reports l target_id s2,
        store.appends l target_id s2 k,
      )

  -- Over a store that does what its operations promise, Unsubscribe of two users that exist takes the
  -- target out of the user's list of subscriptions and replies OK, or NoSuchTargetUser if it is not
  -- there; where one of the users does not exist it says which, and nothing changes. All other keys
  -- stay.
  pub unsubscribe-Unsubscribes :
      (user_id target_id : Bytes) (s : S) (k : Bytes)
      → ((unsubscribe ops user_id target_id s).0
          ≡ reply_of s user_id target_id
              (if follows s user_id target_id then ok else no_such_target_user))
        × (contents (unsubscribe ops user_id target_id s).1 k ≡ (
            if is_user s user_id && is_user s target_id
            then removed (format_sub_list_key user_id) target_id (contents s) k
            else contents s k))
  unfolding unsubscribe
  unsubscribe-Unsubscribes user_id target_id s k =
      let u = format_user_key user_id in
      let t = format_user_key target_id in
      let l = format_sub_list_key user_id in
      let s1 = (ops.get u s).1 in
      let s2 = (ops.get t s1).1 in
      ground (
        arith,
        store.gets u s,
        store.get_keeps u s k,
        store.get_keeps u s t,
        store.get_keeps u s l,
        store.gets t s1,
        store.get_keeps t s1 k,
        store.get_keeps t s1 l,
        store.remove_reports l target_id s2,
        store.removes l target_id s2 k,
      )
