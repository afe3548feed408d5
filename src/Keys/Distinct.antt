-- ===== src/Keys/Distinct.antt =====
-- Keys of different kinds, or of different users, are different keys.
use simple_twitter.Common.{ℕ, zero, suc, ◌≡◌, refl, [], ◌∷◌, ◌++◌, arith, ap, ◌∙◌, sym}
use simple_twitter.Common.Int.{ℤ, IsInt64}
use simple_twitter.Common.Order.{Bytes}
use simple_twitter.Text.{codes, split}
use simple_twitter.Text.Split.{Lacks, split-append, split-Lacks}
use simple_twitter.Text.Hex.{format_int, parse_int}
use simple_twitter.Text.Hex.RoundTrip.{parse_int-format_int}
use simple_twitter.Keys.{
  format_user_key, format_sub_list_key, format_post_key, format_post_list_key,
}
use simple_twitter.Keys.RoundTrip.{Lacks-post}

-- The four kinds of keys that the application server forms.
pub data Kind : Type 0 where
  user sub_list post_list : Kind
  post : ℤ → Kind

abbrev pub format_key : Kind → Bytes → Bytes
format_key user = format_user_key
format_key sub_list = format_sub_list_key
format_key post_list = format_post_list_key
format_key (post t) = λ user_id. format_post_key user_id t

abbrev pub HasTime : Kind → Type 0
HasTime (post t) = IsInt64 t
HasTime _ = Unit

-- What stands behind the colon.
abbrev ending : Kind → Bytes
ending user = codes "usrid"
ending sub_list = codes "sublist"
ending post_list = codes "postlist"
ending (post t) = codes "post_" ++ format_int t

Lacks-ending : (k : Kind) → Lacks b':' (ending k)
Lacks-ending user = omega arith
Lacks-ending sub_list = omega arith
Lacks-ending post_list = omega arith
Lacks-ending (post t) = Lacks-post t

format_key-ending : (k : Kind) (user_id : Bytes) → format_key k user_id ≡ user_id ++ b':' ∷ ending k
unfolding format_user_key format_sub_list_key format_post_key format_post_list_key
format_key-ending user user_id = refl
format_key-ending sub_list user_id = refl
format_key-ending post_list user_id = refl
format_key-ending (post t) user_id = refl

split-format_key :
    (k : Kind) (user_id : Bytes)
    → Lacks b':' user_id
    → split b':' (format_key k user_id) ≡ user_id ∷ ending k ∷ []
split-format_key k user_id h = rw (
  format_key-ending k user_id,
  split-append b':' user_id (ending k) h,
  split-Lacks b':' (ending k) (Lacks-ending k),
)

abbrev byte_at : ℕ → Bytes → ℕ
byte_at i [] = 0
byte_at zero (c ∷ s) = c
byte_at (suc i) (c ∷ s) = byte_at i s

ending-injective : (k k' : Kind) → HasTime k → HasTime k' → ending k ≡ ending k' → k ≡ k'
ending-injective user user h h' e = refl
ending-injective user sub_list h h' e = absurd (omega (arith, ap (byte_at 0) e))
ending-injective user post_list h h' e = absurd (omega (arith, ap (byte_at 0) e))
ending-injective user (post t) h h' e = absurd (omega (arith, ap (byte_at 0) e))
ending-injective sub_list user h h' e = absurd (omega (arith, ap (byte_at 0) e))
ending-injective sub_list sub_list h h' e = refl
ending-injective sub_list post_list h h' e = absurd (omega (arith, ap (byte_at 0) e))
ending-injective sub_list (post t) h h' e = absurd (omega (arith, ap (byte_at 0) e))
ending-injective post_list user h h' e = absurd (omega (arith, ap (byte_at 0) e))
ending-injective post_list sub_list h h' e = absurd (omega (arith, ap (byte_at 0) e))
ending-injective post_list post_list h h' e = refl
ending-injective post_list (post t) h h' e = absurd (omega (arith, ap (byte_at 4) e))
ending-injective (post t) user h h' e = absurd (omega (arith, ap (byte_at 0) e))
ending-injective (post t) sub_list h h' e = absurd (omega (arith, ap (byte_at 0) e))
ending-injective (post t) post_list h h' e = absurd (omega (arith, ap (byte_at 4) e))
ending-injective (post t) (post t') h h' e =
    let times : format_int t ≡ format_int t' = cc in
    ap post (sym (parse_int-format_int t h) ∙ ap parse_int times ∙ parse_int-format_int t' h')

-- For user names with no colon and times that 64 bits hold, two keys that are equal have the same
-- kind, the same time if they are keys of posts, and the same user.
pub format_key-injective :
    (k k' : Kind) (user_id user_id' : Bytes)
    → Lacks b':' user_id
    → Lacks b':' user_id'
    → HasTime k
    → HasTime k'
    → format_key k user_id ≡ format_key k' user_id'
    → (k ≡ k') × (user_id ≡ user_id')
format_key-injective k k' user_id user_id' h h' t t' e =
    let parts : user_id ∷ ending k ∷ [] ≡ user_id' ∷ ending k' ∷ [] =
      sym (split-format_key k user_id h) ∙ ap (split b':') e ∙ split-format_key k' user_id' h' in
    (ending-injective k k' t t' (cc), cc)
