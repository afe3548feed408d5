-- ===== src/Tests/Text.antt =====
-- Keys, lease records and searches at concrete inputs.
use simple_twitter.Common.{◌≡◌, ◌∷◌, [], refl, done, false, arith}
use simple_twitter.Common.Int.{pos, negsuc}
use simple_twitter.Common.Order.{bytes_order, nat_order, bytes_eqb, bytes_ltb}
use simple_twitter.Text.{codes, split}
use simple_twitter.Text.Hex.{format_int, parse_int}
use simple_twitter.Text.Hex.RoundTrip.{parse_int-format_int}
use simple_twitter.Search.{binary_search_string}
use simple_twitter.Search.Sorted.{rank}
use simple_twitter.Search.Rank.{binary_search_string-rank}
use simple_twitter.Hash.{store_hash}
use simple_twitter.Keys.{
  format_user_key, format_sub_list_key, format_post_key, format_post_list_key, parse_post_key,
}
use simple_twitter.Keys.RoundTrip.{parse_post_key-format_post_key, store_hash-same_user}
use simple_twitter.Keys.Distinct.{post, format_key-injective}
use simple_twitter.Tests.Data.{amy, bob, zoe}

prints : format_int (pos 48879) ≡ codes "beef"
unfolding format_int
prints = refl

prints_negative : format_int (negsuc 254) ≡ codes "-ff"
unfolding format_int
prints_negative = refl

-- What is no number is read as 0, and what is too large as the largest `int64`.
reads :
    (parse_int (codes "xyz") ≡ pos 0)
    × (parse_int (codes "FFFFFFFFFFFFFFFFFF") ≡ pos 9223372036854775807)
unfolding parse_int
reads = (refl, refl)

-- FNV-1 of "roc".
hashes : store_hash (codes "roc:usrid") ≡ done 1081269259
unfolding store_hash split
hashes = refl

formats : format_post_key (codes "roc") (pos 255) ≡ codes "roc:post_ff"
unfolding format_post_key format_int
formats = refl

searches : binary_search_string (amy ∷ zoe ∷ []) bob ≡ done 1
unfolding binary_search_string bytes_eqb bytes_ltb
searches = refl

parse_int-format_int_example : parse_int (format_int (negsuc 254)) ≡ negsuc 254
parse_int-format_int_example = parse_int-format_int (negsuc 254) (omega arith)

binary_search_string-rank_example :
    binary_search_string (amy ∷ zoe ∷ []) bob ≡ done (rank bob (amy ∷ zoe ∷ []))
unfolding bytes_ltb
binary_search_string-rank_example =
    binary_search_string-rank (amy ∷ zoe ∷ []) bob ((refl, tt), (tt, tt))

parse_post_key-format_post_key_example :
    parse_post_key (format_post_key (codes "roc") (pos 255))
    ≡ record { user_id = codes "roc"; post_time = pos 255; failed = false }
parse_post_key-format_post_key_example =
    parse_post_key-format_post_key (codes "roc") (pos 255) (omega arith) (omega arith)

store_hash-same_user_example :
    (store_hash (format_sub_list_key (codes "roc")) ≡ store_hash (format_user_key (codes "roc")))
    × (store_hash (format_post_list_key (codes "roc")) ≡ store_hash (format_user_key (codes "roc")))
    × (store_hash (format_post_key (codes "roc") (pos 255))
        ≡ store_hash (format_user_key (codes "roc")))
store_hash-same_user_example = store_hash-same_user (codes "roc") (pos 255)

format_key-injective_example : (post (pos 255) ≡ post (pos 255)) × (codes "roc" ≡ codes "roc")
format_key-injective_example =
    format_key-injective (post (pos 255)) (post (pos 255)) (codes "roc") (codes "roc") (omega arith)
      (omega arith) (omega arith) (omega arith) refl
