-- ===== src/Keys.antt =====
-- src/util/keyFormatter.go: the keys under which the application server stores its data.
pub mod RoundTrip
pub mod Distinct
use simple_twitter.Common.{ℕ, Bool, true, false, List, [], ◌∷◌, ◌++◌}
use simple_twitter.Common.Int.{ℤ, pos}
use simple_twitter.Common.Order.{Bytes}
use simple_twitter.Text.{codes, split}
use simple_twitter.Text.Hex.{format_int, parse_int}

unfoldable pub format_user_key : Bytes → Bytes
format_user_key user_id = user_id ++ codes ":usrid"

unfoldable pub format_sub_list_key : Bytes → Bytes
format_sub_list_key user_id = user_id ++ codes ":sublist"

unfoldable pub format_post_key : Bytes → ℤ → Bytes
format_post_key user_id post_time = user_id ++ (codes ":post_" ++ format_int post_time)

unfoldable pub format_post_list_key : Bytes → Bytes
format_post_list_key user_id = user_id ++ codes ":postlist"

-- The three results of `ParsePostKey`; `failed` says that the error is not nil.
pub record PostKey : Type 0 where
  pub user_id : Bytes
  pub post_time : ℤ
  pub failed : Bool

unfoldable pub parse_post_time : Bytes → List Bytes → PostKey
parse_post_time user_id (kind ∷ time ∷ rest) = record {
  user_id = user_id;
  post_time = parse_int time;
  failed = false;
}
parse_post_time user_id _ = record { user_id = user_id; post_time = pos 0; failed = true }

unfoldable pub parse_post_parts : List Bytes → PostKey
unfolding parse_post_time
parse_post_parts (user_id ∷ res ∷ rest) = parse_post_time user_id (split b'_' res)
parse_post_parts _ = record { user_id = []; post_time = pos 0; failed = true }

unfoldable pub parse_post_key : Bytes → PostKey
unfolding parse_post_parts
parse_post_key post_key = parse_post_parts (split b':' post_key)
