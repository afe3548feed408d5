-- ===== src/StwServer/Posts.antt =====
-- src/stwserver/stwserver_impl.go: `Post` and `DeletePost`; `now` is the reading of the clock in nanoseconds.
pub mod RoundTrip
use simple_twitter.Slices.{has}
use simple_twitter.Common.{
  ◌≡◌, Bool, true, false, not, ◌||◌, ◌&&◌, none, some, [], ◌∷◌, if◌then◌else◌, arith,
}
use simple_twitter.Common.Int.{ℤ}
use simple_twitter.Common.Order.{Bytes, bytes_eqb, bytes_order}
use simple_twitter.Keys.{format_user_key, format_post_key, format_post_list_key, parse_post_key}
use simple_twitter.StwServer.Membership.{Status, ok, no_such_user, no_such_post}
use simple_twitter.StwServer.Store.{
  StoreOps, Contents, list_of, is_stored, updated, deleted, appended, removed, IsStore,
}
use simple_twitter.StwServer.Users.{is_user}

pub record PostReply : Type 0 where
  pub status : Status
  pub post_key : Bytes

module _ {S : Type 0} (ops : StoreOps S) where
  unfoldable pub post : Bytes → Bytes → ℤ → S → PostReply × S
  post user_id text now s =
      let (user, s1) = ops.get (format_user_key user_id) s in
      elim user [
        | none ↦ (record { status = no_such_user; post_key = [] }, s1)
        | some v ↦
            let key = format_post_key user_id now in
            let (stored, s2) = ops.put key text s1 in
            let (listed, s3) = ops.append_to_list (format_post_list_key user_id) key s2 in
            (record { status = ok; post_key = key }, s3)
      ]

  unfoldable pub delete_post : Bytes → Bytes → S → Status × S
  delete_post user_id post_key s =
      let (user, s1) = ops.get (format_user_key user_id) s in
      elim user [
        | none ↦ (no_such_user, s1)
        | some v ↦
            let post = parse_post_key post_key in
            if post.failed || not (bytes_eqb post.user_id user_id)
            then (no_such_post, s1)
            else let (unlisted, s2) =
                ops.remove_from_list (format_post_list_key user_id) post_key s1 in
              if not unlisted
              then (no_such_post, s2)
              else let (gone, s3) = ops.delete post_key s2 in
                (if gone then ok else no_such_post, s3)
      ]

module _ {S : Type 0} (ops : StoreOps S) (contents : S → Contents)
    (store : IsStore ops contents) where
  -- Over a store that does what its operations promise, Post of a user that exists stores the text
  -- under the key of the user and the time, puts that key into the user's ordered list of posts, and
  -- replies OK with the key; for a user that does not exist it replies NoSuchUser with no key, and
  -- nothing changes. All other keys stay.
  pub post-Posts :
      (user_id text : Bytes) (now : ℤ) (s : S) (k : Bytes)
      → ((post ops user_id text now s).0 ≡ (
          if is_user ops contents store s user_id
          then record { status = ok; post_key = format_post_key user_id now }
          else record { status = no_such_user; post_key = [] }))
        × (contents (post ops user_id text now s).1 k ≡ (
            if is_user ops contents store s user_id
            then appended
                (format_post_list_key user_id)
                (format_post_key user_id now)
                (updated (format_post_key user_id now) (text ∷ []) (contents s))
                k
            else contents s k))
  unfolding post
  post-Posts user_id text now s k =
      let u = format_user_key user_id in
      let p = format_post_key user_id now in
      let l = format_post_list_key user_id in
      let s1 = (ops.get u s).1 in
      let s2 = (ops.put p text s1).1 in
      ground (
        arith,
        store.gets u s,
        store.get_keeps u s k,
        store.get_keeps u s l,
        store.puts p text s1 k,
        store.puts p text s1 l,
        store.appends l p s2 k,
      )

  -- The key reads as that of a post of the user, and stands in the user's list.
  abbrev pub is_own_post : S → Bytes → Bytes → Bool
  is_own_post s user_id post_key =
      not (
        (parse_post_key post_key).failed
        || not (bytes_eqb (parse_post_key post_key).user_id user_id))
      && has post_key (list_of (contents s (format_post_list_key user_id)))

  -- Over a store that does what its operations promise, DeletePost of a user that exists, for a key
  -- that reads as that of a post of this user and stands in the user's list of posts, takes it out of
  -- the list and deletes what is stored under it, and replies OK if something was; for any other key
  -- it replies NoSuchPost, and for a user that does not exist NoSuchUser, and nothing changes. All
  -- other keys stay.
  pub delete_post-Deletes :
      (user_id post_key : Bytes) (s : S) (k : Bytes)
      → let l = format_post_list_key user_id in
        let own = is_own_post s user_id post_key in
        let rest = removed l post_key (contents s) in
        ((delete_post ops user_id post_key s).0 ≡ (
          if not (is_user ops contents store s user_id)
          then no_such_user
          else if own && is_stored (rest post_key)
          then ok
          else no_such_post))
        × (contents (delete_post ops user_id post_key s).1 k ≡ (
            if is_user ops contents store s user_id && own
            then deleted post_key rest k
            else contents s k))
  unfolding delete_post
  delete_post-Deletes user_id post_key s k =
      let u = format_user_key user_id in
      let l = format_post_list_key user_id in
      let s1 = (ops.get u s).1 in
      let s2 = (ops.remove_from_list l post_key s1).1 in
      ground (
        arith,
        store.gets u s,
        store.get_keeps u s k,
        store.get_keeps u s l,
        store.get_keeps u s post_key,
        store.remove_reports l post_key s1,
        store.removes l post_key s1 k,
        store.removes l post_key s1 post_key,
        store.delete_reports post_key s2,
        store.deletes post_key s2 k,
      )
