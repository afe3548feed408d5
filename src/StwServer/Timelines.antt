-- ===== src/StwServer/Timelines.antt =====
-- src/stwserver/stwserver_impl.go: `Timeline` and `HomeTimeline`. `sort` is what `sort.Sort` of Go's
-- library does to a slice of post keys; `none` is a call that ends with an error.
pub mod Lists
pub mod Sorting
pub mod Counts
pub mod Best
use simple_twitter.Common.{
  ℕ, zero, suc, Bool, not, Option, none, some, List, [], ◌∷◌, ◌++◌, take, length, ltb,
  if◌then◌else◌,
}
use simple_twitter.Common.Int.{ℤ, int_ltb}
use simple_twitter.Common.Order.{Bytes}
use simple_twitter.Text.Hex.{format_int}
use simple_twitter.Keys.{format_user_key, format_sub_list_key, format_post_list_key, parse_post_key}
use simple_twitter.StwServer.Membership.{Status, ok, no_such_user}
use simple_twitter.StwServer.Store.{StoreOps}

-- `stwrpc.Post`
pub record Post : Type 0 where
  pub user_id : Bytes
  pub posted : Bytes
  pub contents : Bytes

pub record TimelineReply : Type 0 where
  pub status : Status
  pub posts : List Post

-- The time of the post that a key is for.
unfoldable pub time_of : Bytes → ℤ
time_of key = (parse_post_key key).post_time

-- `ByRevChronological.Less`
unfoldable pub is_newer : Bytes → Bytes → Bool
unfolding time_of
is_newer a b = int_ltb (time_of b) (time_of a)

abbrev pub post_limit : ℕ
post_limit = 100

unfoldable pub post_of : Bytes → Bytes → Post
post_of key text = record {
  user_id = (parse_post_key key).user_id;
  posted = format_int (parse_post_key key).post_time;
  contents = text;
}

abbrev pub add_post : Post → Option (List Post) → Option (List Post)
add_post p none = none
add_post p (some ps) = some (p ∷ ps)

-- `postlist[:limit]` with the limit cut down to the length of the list.
unfoldable pub first_posts : List Bytes → List Bytes
first_posts keys = take (if ltb (length keys) post_limit then length keys else post_limit) keys

abbrev pub no_reply : TimelineReply
no_reply = record { status = no_such_user; posts = [] }

abbrev pub reply_with : Option (List Post) → Option TimelineReply
reply_with none = none
reply_with (some posts) = some (record { status = ok; posts = posts })

module _ {S : Type 0} (ops : StoreOps S) where
  -- The loop over the keys, with the number of posts that may still be read.
  unfoldable pub read_posts : ℕ → List Bytes → S → Option (List Post) × S
  read_posts zero keys s = (some [], s)
  read_posts (suc limit) [] s = (some [], s)
  read_posts (suc limit) (key ∷ keys) s =
      let (found, s1) = ops.get key s in
      elim found [
        | none ↦ (none, s1)
        | some text ↦
            let (posts, s2) = read_posts limit keys s1 in (add_post (post_of key text) posts, s2)
      ]

  module _ (sort : List Bytes → List Bytes) where
    unfoldable pub timeline : Bytes → S → Option TimelineReply × S
    unfolding read_posts
    timeline user_id s =
        let (user, s1) = ops.get (format_user_key user_id) s in
        elim user [
          | none ↦ (some no_reply, s1)
          | some v ↦
              let (list, s2) = ops.get_list (format_post_list_key user_id) s1 in
              elim list [
                | none ↦ (some (record { status = ok; posts = [] }), s2)
                | some keys ↦
                    let (posts, s3) = read_posts post_limit (sort keys) s2 in (reply_with posts, s3)
              ]
        ]

    -- The keys of the newest posts of the users in a list of subscriptions.
    unfoldable pub gather_keys : List Bytes → S → List Bytes × S
    unfolding first_posts
    gather_keys [] s = ([], s)
    gather_keys (target ∷ targets) s =
        let (list, s1) = ops.get_list (format_post_list_key target) s in
        let (keys, s2) = gather_keys targets s1 in
        (elim list [ none ↦ keys | some own ↦ first_posts (sort own) ++ keys ], s2)

    unfoldable pub home_timeline : Bytes → S → Option TimelineReply × S
    unfolding gather_keys read_posts
    home_timeline user_id s =
        let (user, s1) = ops.get (format_user_key user_id) s in
        elim user [
          | none ↦ (some no_reply, s1)
          | some v ↦
              let (list, s2) = ops.get_list (format_sub_list_key user_id) s1 in
              let targets : List Bytes = elim list [ none ↦ [] | some subs ↦ subs ] in
              let (keys, s3) = gather_keys targets s2 in
              let (posts, s4) = read_posts post_limit (sort keys) s3 in (reply_with posts, s4)
        ]
