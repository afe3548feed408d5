-- ===== src/Keys/RoundTrip.antt =====
-- Post keys are read back, and all keys of a user have the same hash.
use simple_twitter.Common.{◌≡◌, false, [], ◌∷◌, ◌++◌, arith, ◌∙◌}
use simple_twitter.Common.Int.{ℤ, IsInt64}
use simple_twitter.Common.Order.{Bytes}
use simple_twitter.Text.{codes, split}
use simple_twitter.Text.Split.{Lacks, split-append, split-Lacks}
use simple_twitter.Text.Hex.{format_int}
use simple_twitter.Text.Hex.RoundTrip.{
  parse_int-format_int, Lacks-format_int, colon-IsSeparator, underscore-IsSeparator,
}
use simple_twitter.Hash.{store_hash, store_hash-append}
use simple_twitter.Keys.{
  format_user_key, format_sub_list_key, format_post_key, format_post_list_key, parse_post_key,
}

-- The text behind the colon of a post key holds no colon.
pub Lacks-post : (t : ℤ) → Lacks b':' (codes "post_" ++ format_int t)
Lacks-post t = ground (arith, Lacks-format_int b':' t colon-IsSeparator)

pub split-post :
    (t : ℤ) → split b'_' (codes "post_" ++ format_int t) ≡ codes "post" ∷ format_int t ∷ []
split-post t =
    split-append b'_' (codes "post") (format_int t) (ground arith)
    ∙ rw (split-Lacks b'_' (format_int t) (Lacks-format_int b'_' t underscore-IsSeparator))

-- ParsePostKey gives back the user and the time that FormatPostKey was given, with no error, for a
-- user name with no colon in it and a time that 64 bits hold.
pub parse_post_key-format_post_key :
    (user_id : Bytes) (t : ℤ)
    → Lacks b':' user_id
    → IsInt64 t
    → parse_post_key (format_post_key user_id t)
      ≡ record { user_id = user_id; post_time = t; failed = false }
unfolding parse_post_key format_post_key
parse_post_key-format_post_key user_id t h k = rw (
  split-append b':' user_id (codes "post_" ++ format_int t) h,
  split-Lacks b':' (codes "post_" ++ format_int t) (Lacks-post t),
  split-post t,
  parse_int-format_int t k,
)

-- Whatever the user name, its user record, its subscriptions, its list of posts and every post of
-- it have keys with one hash.
pub store_hash-same_user :
    (user_id : Bytes) (t : ℤ)
    → (store_hash (format_sub_list_key user_id) ≡ store_hash (format_user_key user_id))
      × (store_hash (format_post_list_key user_id) ≡ store_hash (format_user_key user_id))
      × (store_hash (format_post_key user_id t) ≡ store_hash (format_user_key user_id))
unfolding format_user_key format_sub_list_key format_post_key format_post_list_key
store_hash-same_user user_id t =
    (store_hash-append user_id _ _, store_hash-append user_id _ _, store_hash-append user_id _ _)
