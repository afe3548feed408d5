-- ===== src/StwServer/Timelines/Lists.antt =====
-- The timelines over a store that does what its operations promise.
use mathlib.Core.Path.{fun_ext}
use simple_twitter.Common.{
  ℕ, zero, suc, ◌≡◌, refl, sym, ◌∙◌, ap, Option, none, some, List, [], ◌∷◌, ◌++◌, take, length, ltb,
  if◌then◌else◌, arith, ◌≤◌, Bool-cases, inl, inr,
}
use simple_twitter.Common.Order.{Bytes}
use simple_twitter.Keys.{format_user_key, format_sub_list_key, format_post_list_key}
use simple_twitter.StwServer.Store.{StoreOps, Contents, value_of, list_of, IsStore}
use simple_twitter.StwServer.Users.{is_user}
use simple_twitter.StwServer.Timelines.{
  Post, post_limit, post_of, add_post, first_posts, no_reply, reply_with, read_posts, timeline,
  gather_keys, home_timeline,
}
use simple_twitter.StwServer.Timelines.Sorting.{IsSort, sort-nil}

-- The posts under the keys, if there is one under each.
abbrev pub posts_at : Contents → List Bytes → Option (List Post)
posts_at m [] = some []
posts_at m (key ∷ keys) = elim (value_of (m key)) [
  | none ↦ none
  | some text ↦ add_post (post_of key text) (posts_at m keys)
]

-- The newest keys of each of the users.
abbrev pub newest_keys : (List Bytes → List Bytes) → Contents → List Bytes → List Bytes
newest_keys sort m [] = []
newest_keys sort m (target ∷ targets) =
    take post_limit (sort (list_of (m (format_post_list_key target)))) ++ newest_keys sort m targets

take-all : (n : ℕ) (keys : List Bytes) → length keys ≤ n → take n keys ≡ keys
take-all zero [] h = refl
take-all zero (k ∷ keys) h = absurd (omega arith)
take-all (suc n) [] h = refl
take-all (suc n) (k ∷ keys) h = ap (λ ks. k ∷ ks) (take-all n keys (omega arith))

first_posts-take : (keys : List Bytes) → first_posts keys ≡ take post_limit keys
unfolding first_posts
first_posts-take keys = elim (Bool-cases (ltb (length keys) post_limit)) [
  | inl short ↦
      rw short
        (take-all (length keys) keys (omega arith) ∙ sym (take-all post_limit keys (ground arith)))
  | inr long ↦ rw long refl
]

module _ {S : Type 0} (ops : StoreOps S) (contents : S → Contents)
    (store : IsStore ops contents) where
  get_same : (key : Bytes) (s : S) → contents (ops.get key s).1 ≡ contents s
  get_same key s = fun_ext (store.get_keeps key s)

  get_list_same : (key : Bytes) (s : S) → contents (ops.get_list key s).1 ≡ contents s
  get_list_same key s = fun_ext (store.get_list_keeps key s)

  read_posts-at :
      (limit : ℕ) (keys : List Bytes) (s : S)
      → ((read_posts ops limit keys s).0 ≡ posts_at (contents s) (take limit keys))
        × (contents (read_posts ops limit keys s).1 ≡ contents s)
  unfolding read_posts
  read_posts-at zero keys s = (refl, refl)
  read_posts-at (suc limit) [] s = (refl, refl)
  read_posts-at (suc limit) (key ∷ keys) s =
      ground (arith, store.gets key s, get_same key s, read_posts-at limit keys (ops.get key s).1)

  gather_keys-newest :
      (sort : List Bytes → List Bytes)
      → IsSort sort
      → (targets : List Bytes) (s : S)
      → ((gather_keys ops sort targets s).0 ≡ newest_keys sort (contents s) targets)
        × (contents (gather_keys ops sort targets s).1 ≡ contents s)
  unfolding gather_keys
  gather_keys-newest sort o [] s = (refl, refl)
  gather_keys-newest sort o (target ∷ targets) s = ground (
    arith,
    store.gets_list (format_post_list_key target) s,
    get_list_same (format_post_list_key target) s,
    gather_keys-newest sort o targets (ops.get_list (format_post_list_key target) s).1,
    first_posts-take (sort (list_of (contents s (format_post_list_key target)))),
    sort-nil sort o,
  )

  -- Over a store that does what its operations promise, and with a sort that rearranges and orders
  -- by time, Timeline changes no key. For a user that exists it replies OK with the posts under the
  -- first 100 of the user's sorted keys, in that order, or ends with an error if one of them is not
  -- there; for a user that does not exist it replies NoSuchUser.
  pub timeline-Lists :
      (sort : List Bytes → List Bytes) (user_id : Bytes) (s : S)
      → IsSort sort
      → ((timeline ops sort user_id s).0 ≡ (
          if is_user ops contents store s user_id
          then reply_with (
              posts_at
                (contents s)
                (take post_limit (sort (list_of (contents s (format_post_list_key user_id))))))
          else some no_reply))
        × ((k : Bytes) → contents (timeline ops sort user_id s).1 k ≡ contents s k)
  unfolding timeline
  timeline-Lists sort user_id s o =
      let u = format_user_key user_id in
      let l = format_post_list_key user_id in
      let s1 = (ops.get u s).1 in
      let s2 = (ops.get_list l s1).1 in
      let keys = sort (list_of (contents s l)) in
      (
        ground (
          arith,
          store.gets u s,
          get_same u s,
          store.gets_list l s1,
          get_list_same l s1,
          read_posts-at post_limit keys s2,
          sort-nil sort o,
        ),
        λ k. ground (
          arith,
          store.gets u s,
          get_same u s,
          store.gets_list l s1,
          get_list_same l s1,
          read_posts-at post_limit keys s2,
        ),
      )

  -- The same of HomeTimeline, for the newest keys of each user in the list of subscriptions.
  pub home_timeline-Lists :
      (sort : List Bytes → List Bytes) (user_id : Bytes) (s : S)
      → IsSort sort
      → ((home_timeline ops sort user_id s).0 ≡ (
          if is_user ops contents store s user_id
          then reply_with (
              posts_at (contents s) (
                take post_limit (
                  sort (
                    newest_keys sort
                      (contents s)
                      (list_of (contents s (format_sub_list_key user_id)))))))
          else some no_reply))
        × ((k : Bytes) → contents (home_timeline ops sort user_id s).1 k ≡ contents s k)
  unfolding home_timeline
  home_timeline-Lists sort user_id s o =
      let u = format_user_key user_id in
      let l = format_sub_list_key user_id in
      let s1 = (ops.get u s).1 in
      let s2 = (ops.get_list l s1).1 in
      let targets = list_of (contents s l) in
      let s3 = (gather_keys ops sort targets s2).1 in
      let keys = sort (newest_keys sort (contents s) targets) in
      (
        ground (
          arith,
          store.gets u s,
          get_same u s,
          store.gets_list l s1,
          get_list_same l s1,
          gather_keys-newest sort o targets s2,
          read_posts-at post_limit keys s3,
        ),
        λ k. ground (
          arith,
          store.gets u s,
          get_same u s,
          store.gets_list l s1,
          get_list_same l s1,
          gather_keys-newest sort o targets s2,
          read_posts-at post_limit keys s3,
        ),
      )
