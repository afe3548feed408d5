-- ===== src/Tests/Timelines.antt =====
-- Posts and timelines over a store that is a map.
use simple_twitter.Common.{
  ◌≡◌, refl, true, false, not, ◌&&◌, none, some, List, [], ◌∷◌, map, take, if◌then◌else◌, arith,
}
use simple_twitter.Common.Int.{pos, int_ltb}
use simple_twitter.Common.Order.{Bytes, bytes_eqb, bytes_order}
use simple_twitter.Common.Map.{insert, lookup}
use simple_twitter.Text.{codes, split}
use simple_twitter.Text.Hex.{format_int, parse_int}
use simple_twitter.Slices.{has}
use simple_twitter.Keys.{
  format_user_key, format_sub_list_key, format_post_key, format_post_list_key, parse_post_key,
}
use simple_twitter.StwServer.Membership.{ok, no_such_user, no_such_post}
use simple_twitter.StwServer.Store.{list_of, is_stored, deleted, removed}
use simple_twitter.StwServer.Users.{is_user}
use simple_twitter.StwServer.Posts.{post, delete_post, is_own_post, delete_post-Deletes}
use simple_twitter.StwServer.Posts.RoundTrip.{delete_post-post}
use simple_twitter.StwServer.Timelines.{
  Post, post_limit, no_reply, reply_with, timeline, home_timeline, is_newer, post_of,
}
use simple_twitter.StwServer.Timelines.Lists.{posts_at, timeline-Lists}
use simple_twitter.StwServer.Timelines.Best.{all_keys, times_of, home_timeline-Best}
use simple_twitter.Tests.Data.{amy, bob}
use simple_twitter.Tests.Sort.{sort_keys, sort_keys-IsSort}
use simple_twitter.Tests.StwServer.{Store, at_key, map_ops, map_ops-IsStore, users}

abbrev early : Bytes
early = format_post_key bob (pos 1500)

abbrev late : Bytes
late = format_post_key bob (pos 1600)

-- Amy follows bob, who has posted twice.
abbrev posted : Store
posted = insert (format_sub_list_key amy) (bob ∷ []) (
    insert (format_post_list_key bob) (early ∷ late ∷ [])
      (insert early (codes "one" ∷ []) (insert late (codes "two" ∷ []) users)))

abbrev bobs_posts : List Post
bobs_posts =
    record { user_id = bob; posted = codes "640"; contents = codes "two" }
    ∷ record { user_id = bob; posted = codes "5dc"; contents = codes "one" }
    ∷ []

amy_known : is_user map_ops at_key map_ops-IsStore posted amy ≡ true
unfolding lookup insert bytes_eqb format_user_key format_post_key format_post_list_key
    format_sub_list_key
amy_known = refl

amys_home :
    (home_timeline map_ops sort_keys amy posted).0
    ≡ some (record { status = ok; posts = bobs_posts })
unfolding home_timeline lookup insert bytes_eqb format_user_key format_post_key format_post_list_key
    format_sub_list_key sort_keys format_int is_newer int_ltb parse_post_key split parse_int post_of
amys_home = refl

home_timeline-Best_example :
    map (λ p. p.posted) bobs_posts
    ≡ map format_int (
        take post_limit (
          times_of (
            sort_keys
              (all_keys (at_key posted) (list_of (at_key posted (format_sub_list_key amy)))))))
home_timeline-Best_example =
    home_timeline-Best map_ops at_key map_ops-IsStore sort_keys amy posted bobs_posts
      sort_keys-IsSort amy_known amys_home

timeline-Lists_example :
    ((timeline map_ops sort_keys bob posted).0 ≡ (
      if is_user map_ops at_key map_ops-IsStore posted bob
      then reply_with (
          posts_at
            (at_key posted)
            (take post_limit (sort_keys (list_of (at_key posted (format_post_list_key bob))))))
      else some no_reply))
    × ((k : Bytes) → at_key (timeline map_ops sort_keys bob posted).1 k ≡ at_key posted k)
timeline-Lists_example =
    timeline-Lists map_ops at_key map_ops-IsStore sort_keys bob posted sort_keys-IsSort

delete_post-Deletes_example :
    let l = format_post_list_key bob in
    let own = is_own_post map_ops at_key map_ops-IsStore posted bob early in
    let rest = removed l early (at_key posted) in
    ((delete_post map_ops bob early posted).0 ≡ (
      if not (is_user map_ops at_key map_ops-IsStore posted bob)
      then no_such_user
      else if own && is_stored (rest early)
      then ok
      else no_such_post))
    × (at_key (delete_post map_ops bob early posted).1 l ≡ (
        if is_user map_ops at_key map_ops-IsStore posted bob && own
        then deleted early rest l
        else at_key posted l))
delete_post-Deletes_example =
    delete_post-Deletes map_ops at_key map_ops-IsStore bob early posted (format_post_list_key bob)

amys_list :
    has (format_post_key amy (pos 1500)) (list_of (at_key posted (format_post_list_key amy)))
    ≡ false
unfolding lookup insert bytes_eqb has format_user_key format_post_key format_post_list_key
    format_sub_list_key format_int
amys_list = refl

delete_post-post_example :
    let (reply, s1) = post map_ops amy (codes "hello") (pos 1500) posted in
    ((delete_post map_ops amy reply.post_key s1).0 ≡ ok)
    × ((k : Bytes)
        → at_key (delete_post map_ops amy reply.post_key s1).1 k ≡ (
            if bytes_eqb (format_post_key amy (pos 1500)) k
            then none
            else if bytes_eqb (format_post_list_key amy) k
            then some (list_of (at_key posted (format_post_list_key amy)))
            else at_key posted k))
delete_post-post_example =
    delete_post-post map_ops at_key map_ops-IsStore amy (codes "hello") (pos 1500) posted
      (omega arith) (omega arith) amy_known amys_list
