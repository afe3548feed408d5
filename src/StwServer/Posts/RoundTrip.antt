-- ===== src/StwServer/Posts/RoundTrip.antt =====
-- A post that is deleted again leaves the store as it was.
use simple_twitter.Common.{◌≡◌, ◌≢◌, true, false, none, some, [], ◌∷◌, if◌then◌else◌, arith}
use simple_twitter.Common.Int.{ℤ, IsInt64}
use simple_twitter.Common.Order.{Bytes, bytes_eqb, bytes_eqb_iff, bytes_order}
use simple_twitter.Text.Split.{Lacks}
use simple_twitter.Slices.{has, insert_sorted}
use simple_twitter.Keys.{format_user_key, format_post_key, format_post_list_key}
use simple_twitter.Keys.RoundTrip.{parse_post_key-format_post_key}
use simple_twitter.Keys.Distinct.{Kind, format_key-injective}
use simple_twitter.Keys.Distinct
use simple_twitter.Slices.Sets.{has-insert_sorted, remove-insert_sorted}
use simple_twitter.StwServer.Membership.{ok}
use simple_twitter.StwServer.Store.{StoreOps, Contents, list_of, IsStore}
use simple_twitter.StwServer.Users.{is_user}
use simple_twitter.StwServer.Posts.{post, delete_post, post-Posts, delete_post-Deletes}

-- Two kinds of keys are never one key.
pub keys_apart :
    (k k' : Kind) (user_id : Bytes)
    → Lacks b':' user_id
    → Distinct.HasTime k
    → Distinct.HasTime k'
    → k ≢ k'
    → bytes_eqb (Distinct.format_key k user_id) (Distinct.format_key k' user_id) ≡ false
keys_apart k k' user_id h t t' apart = ground (
  arith,
  bytes_eqb_iff (Distinct.format_key k user_id) (Distinct.format_key k' user_id),
  λ (e : Distinct.format_key k user_id ≡ Distinct.format_key k' user_id).
      apart (format_key-injective k k' user_id user_id h h t t' e).0,
)

module _ {S : Type 0} (ops : StoreOps S) (contents : S → Contents)
    (store : IsStore ops contents) where
  -- What the store holds under the three keys of the user after a post.
  posted :
      (user_id text : Bytes) (now : ℤ) (s : S)
      → Lacks b':' user_id
      → IsInt64 now
      → is_user ops contents store s user_id ≡ true
      → has (format_post_key user_id now) (list_of (contents s (format_post_list_key user_id)))
        ≡ false
      → (k : Bytes)
      → contents (post ops user_id text now s).1 k ≡ (
          if bytes_eqb (format_post_list_key user_id) k
          then some (
              insert_sorted
                (format_post_key user_id now)
                (list_of (contents s (format_post_list_key user_id))))
          else if bytes_eqb (format_post_key user_id now) k
          then some (text ∷ [])
          else contents s k)
  posted user_id text now s h t u new k =
      let p = format_post_key user_id now in
      let l = format_post_list_key user_id in
      ground (
        arith,
        post-Posts ops contents store user_id text now s k,
        keys_apart (Distinct.post now) Distinct.post_list user_id h t tt (λ e. cc),
        bytes_eqb_iff p k,
        bytes_eqb_iff l k,
      )

  -- Over a store that does what its operations promise, for a user with no colon in the name who
  -- exists and a time that 64 bits hold whose key is not in the list yet: DeletePost of the key that
  -- Post replied with gives OK, nothing is stored under the key, the list of posts has the values that
  -- it had, and all other keys stay.
  pub delete_post-post :
      (user_id text : Bytes) (now : ℤ) (s : S)
      → Lacks b':' user_id
      → IsInt64 now
      → is_user ops contents store s user_id ≡ true
      → has (format_post_key user_id now) (list_of (contents s (format_post_list_key user_id)))
        ≡ false
      → let (reply, s1) = post ops user_id text now s in
        ((delete_post ops user_id reply.post_key s1).0 ≡ ok)
        × ((k : Bytes)
            → contents (delete_post ops user_id reply.post_key s1).1 k ≡ (
                if bytes_eqb (format_post_key user_id now) k
                then none
                else if bytes_eqb (format_post_list_key user_id) k
                then some (list_of (contents s (format_post_list_key user_id)))
                else contents s k))
  delete_post-post user_id text now s h t u new =
      let p = format_post_key user_id now in
      let l = format_post_list_key user_id in
      let key = format_user_key user_id in
      let s1 = (post ops user_id text now s).1 in
      let replied : (post ops user_id text now s).0.post_key ≡ p =
        ground (arith, post-Posts ops contents store user_id text now s p) in
      let at = posted user_id text now s h t u new in
      let old = list_of (contents s l) in
      let p-l = keys_apart (Distinct.post now) Distinct.post_list user_id h t tt (λ e. cc) in
      let l-p = keys_apart Distinct.post_list (Distinct.post now) user_id h tt t (λ e. cc) in
      let p-u = keys_apart (Distinct.post now) Distinct.user user_id h t tt (λ e. cc) in
      let l-u = keys_apart Distinct.post_list Distinct.user user_id h tt tt (λ e. cc) in
      let listed : has p (insert_sorted p old) ≡ true =
        ground (arith, has-insert_sorted p p old, bytes_eqb_iff p p) in
      let back = remove-insert_sorted p old new in
      rw replied (
        ground (
          arith,
          delete_post-Deletes ops contents store user_id p s1 p,
          parse_post_key-format_post_key user_id now h t,
          at key,
          at l,
          at p,
          listed,
          bytes_eqb_iff user_id user_id,
          bytes_eqb_iff p p,
          bytes_eqb_iff l l,
          p-u,
          l-u,
          p-l,
          l-p,
        ),
        λ k. ground (
          arith,
          delete_post-Deletes ops contents store user_id p s1 k,
          parse_post_key-format_post_key user_id now h t,
          at key,
          at l,
          at p,
          at k,
          listed,
          back,
          bytes_eqb_iff user_id user_id,
          bytes_eqb_iff p p,
          bytes_eqb_iff l l,
          p-u,
          l-u,
          p-l,
          l-p,
          bytes_eqb_iff p k,
          bytes_eqb_iff l k,
        ),
      )
