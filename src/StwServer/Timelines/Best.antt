-- ===== src/StwServer/Timelines/Best.antt =====
-- The home timeline loses nothing by looking at the newest posts of each followed user alone.
use Prim.Native.Nat.{min}
use mathlib.Core.List.{Permᴰ}
use mathlib.Core.List.Permᴰ.{nil, cons, swap, trans}
use simple_twitter.Common.{
  ℕ, zero, suc, ◌+◌, ◌≡◌, refl, sym, ap, ◌∙◌, Bool, true, false, Option, none, some, List, [], ◌∷◌,
  ◌++◌, map, take, if◌then◌else◌, arith,
}
use simple_twitter.Common.Int.{ℤ}
use simple_twitter.Common.Order.{Bytes}
use simple_twitter.Text.Hex.{format_int}
use simple_twitter.Keys.{format_sub_list_key, format_post_list_key}
use simple_twitter.StwServer.Membership.{ok}
use simple_twitter.StwServer.Store.{StoreOps, Contents, list_of, IsStore}
use simple_twitter.StwServer.Users.{is_user}
use simple_twitter.StwServer.Timelines.{
  Post, post_limit, post_of, time_of, is_newer, reply_with, home_timeline,
}
use simple_twitter.StwServer.Timelines.Sorting.{IsSort, IsNewestFirst}
use simple_twitter.StwServer.Timelines.Counts.{
  IsFalling, count_from, count_from-append, count_from-take, take-IsFalling, falling_ext,
}
use simple_twitter.StwServer.Timelines.Lists.{posts_at, newest_keys, home_timeline-Lists}

abbrev pub times_of : List Bytes → List ℤ
times_of = map time_of

-- All keys of the posts of the users.
abbrev pub all_keys : Contents → List Bytes → List Bytes
all_keys m [] = []
all_keys m (target ∷ targets) = list_of (m (format_post_list_key target)) ++ all_keys m targets

times_of-IsFalling : (keys : List Bytes) → IsNewestFirst keys → IsFalling (times_of keys)
unfolding is_newer
times_of-IsFalling [] o = tt
times_of-IsFalling (k ∷ []) o = tt
times_of-IsFalling (k ∷ j ∷ keys) o = (o.0, times_of-IsFalling (j ∷ keys) o.1)

times_of-take : (n : ℕ) (keys : List Bytes) → times_of (take n keys) ≡ take n (times_of keys)
times_of-take zero keys = refl
times_of-take (suc n) [] = refl
times_of-take (suc n) (k ∷ keys) = ap (λ ts. time_of k ∷ ts) (times_of-take n keys)

times_of-append : (xs ys : List Bytes) → times_of (xs ++ ys) ≡ times_of xs ++ times_of ys
times_of-append [] ys = refl
times_of-append (k ∷ xs) ys = ap (λ ts. time_of k ∷ ts) (times_of-append xs ys)

count_from-keys :
    (v : ℤ) (xs ys : List Bytes)
    → count_from v (times_of (xs ++ ys)) ≡ count_from v (times_of xs) + count_from v (times_of ys)
count_from-keys v xs ys =
    ap (count_from v) (times_of-append xs ys) ∙ count_from-append v (times_of xs) (times_of ys)

count_from-perm :
    (v : ℤ) {xs ys : List Bytes}
    → Permᴰ xs ys
    → count_from v (times_of xs) ≡ count_from v (times_of ys)
unfolding count_from
count_from-perm v nil = refl
count_from-perm v (cons e p) = ground (arith, e, count_from-perm v p)
count_from-perm v (swap e e') = ground (arith, e, e')
count_from-perm v (trans p q) = count_from-perm v p ∙ count_from-perm v q

module _ (sort : List Bytes → List Bytes) (o : IsSort sort) where
  -- What the cut keeps of the counts.
  count_from-first :
      (v : ℤ) (keys : List Bytes)
      → count_from v (times_of (take post_limit (sort keys)))
        ≡ min post_limit (count_from v (times_of keys))
  count_from-first v keys = rw times_of-take (
      count_from-take v post_limit (times_of (sort keys))
        (times_of-IsFalling (sort keys) (o.orders keys))
      ∙ ap (min post_limit) (count_from-perm v (o.rearranges keys)))

  count_from-newest :
      (v : ℤ) (m : Contents) (targets : List Bytes)
      → min post_limit (count_from v (times_of (newest_keys sort m targets)))
        ≡ min post_limit (count_from v (times_of (all_keys m targets)))
  count_from-newest v m [] = refl
  count_from-newest v m (target ∷ targets) =
      let own = list_of (m (format_post_list_key target)) in
      let first = take post_limit (sort own) in
      omega (
        arith,
        count_from-keys v first (newest_keys sort m targets),
        count_from-keys v own (all_keys m targets),
        count_from-first v own,
        count_from-newest v m targets,
      )

  newest_keys-all_keys :
      (m : Contents) (targets : List Bytes)
      → times_of (take post_limit (sort (newest_keys sort m targets)))
        ≡ times_of (take post_limit (sort (all_keys m targets)))
  newest_keys-all_keys m targets =
      falling_ext _ _
        (rw times_of-take (
          take-IsFalling post_limit _
            (times_of-IsFalling _ (o.orders (newest_keys sort m targets)))))
        (rw times_of-take
          (take-IsFalling post_limit _ (times_of-IsFalling _ (o.orders (all_keys m targets)))))
        (λ v.
          count_from-first v (newest_keys sort m targets)
          ∙ count_from-newest v m targets
          ∙ sym (count_from-first v (all_keys m targets)))

posted_at :
    (m : Contents) (keys : List Bytes) (posts : List Post)
    → posts_at m keys ≡ some posts
    → map (λ p. p.posted) posts ≡ map format_int (times_of keys)
unfolding post_of time_of
posted_at m [] posts h = ground arith
posted_at m (key ∷ keys) [] h = ground arith
posted_at m (key ∷ keys) (p ∷ posts) h = ground (arith, posted_at m keys posts)

replied_posts :
    (found : Option (List Post)) (posts : List Post)
    → some (record { status = ok; posts = posts }) ≡ reply_with found
    → found ≡ some posts
replied_posts none posts h = absurd (cc)
replied_posts (some ps) posts h = ground arith

taken {ℓ} : {A : Type ℓ} (b : Bool) (x y z : A) → b ≡ true → x ≡ (if b then y else z) → x ≡ y
taken true x y z e h = h
taken false x y z e h = absurd (cc)

module _ {S : Type 0} (ops : StoreOps S) (contents : S → Contents)
    (store : IsStore ops contents) where
  -- Over a store that does what its operations promise, and with a sort that rearranges and orders by
  -- time: if HomeTimeline replies with posts for a user that exists, the times that they show are those
  -- of the 100 newest posts of all users in the user's list of subscriptions, newest first, although
  -- only the 100 newest of each are looked at.
  pub home_timeline-Best :
      (sort : List Bytes → List Bytes) (user_id : Bytes) (s : S) (posts : List Post)
      → IsSort sort
      → is_user ops contents store s user_id ≡ true
      → (home_timeline ops sort user_id s).0 ≡ some (record { status = ok; posts = posts })
      → map (λ p. p.posted) posts
        ≡ map format_int (
            take post_limit (
              times_of (
                sort (all_keys (contents s) (list_of (contents s (format_sub_list_key user_id)))))))
  home_timeline-Best sort user_id s posts o u h =
      let m = contents s in
      let targets = list_of (m (format_sub_list_key user_id)) in
      let shown = take post_limit (sort (newest_keys sort m targets)) in
      let found : posts_at m shown ≡ some posts =
        replied_posts (posts_at m shown) posts
          (sym h ∙ taken _ _ _ _ u (home_timeline-Lists ops contents store sort user_id s o).0) in
      posted_at m shown posts found
      ∙ ap (map format_int) (
          newest_keys-all_keys sort o m targets
          ∙ times_of-take post_limit (sort (all_keys m targets)))
