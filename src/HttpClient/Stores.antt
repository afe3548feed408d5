-- ===== src/HttpClient/Stores.antt =====
-- A post of the HTTP client all the way into the store of the application servers.
use simple_twitter.Common.{ℕ, ◌≡◌, ◌≢◌, refl, ap, ◌∙◌, true, some, List, [], ◌∷◌, arith}
use simple_twitter.Common.Int.{ℤ, IsInt64}
use simple_twitter.Common.Order.{Bytes, bytes_eqb_iff, bytes_order}
use simple_twitter.Text.Split.{Lacks}
use simple_twitter.Slices.{has}
use simple_twitter.Slices.Sets.{has-insert_sorted}
use simple_twitter.Keys.{format_user_key, format_post_key, format_post_list_key}
use simple_twitter.Keys.Distinct
use simple_twitter.StorageServer.Leases.Revoke.{AreClients}
use simple_twitter.StwServer.Membership.{ok}
use simple_twitter.StwServer.Store.{StoreOps, Contents, list_of, IsStore}
use simple_twitter.StwServer.Users.{is_user, create_user, create_user-Creates}
use simple_twitter.StwServer.Posts.{post, post-Posts}
use simple_twitter.StwServer.Posts.RoundTrip.{keys_apart}
use simple_twitter.StwServer.Dispatch.{dispatch, app_servers}
use simple_twitter.StwClient
use simple_twitter.WebServer.State.{Filter, Latency, WebServer}
use simple_twitter.WebServer.Routing.{app_server_of-found}
use simple_twitter.HttpClient
use simple_twitter.HttpClient.{Decoder}
use simple_twitter.HttpClient.Effects.{IsDecoder, deliver, CanReach}
use simple_twitter.HttpClient.Reaches.{post-agrees}

module _ {S : Type 0} (ops : StoreOps S) (contents : S → Contents)
    (store : IsStore ops contents) where
  -- Post after CreateUser, whether there was such a user or not.
  post-create_user :
      (user_id text : Bytes) (now : ℤ) (s : S)
      → Lacks b':' user_id
      → IsInt64 now
      → let (reply, v) = post ops user_id text now (create_user ops user_id s).1 in
        let key = format_post_key user_id now in
        (reply ≡ record { status = ok; post_key = key })
        × (contents v key ≡ some (text ∷ []))
        × (has key (list_of (contents v (format_post_list_key user_id))) ≡ true)
  post-create_user user_id text now s h t =
      let u = format_user_key user_id in
      let p = format_post_key user_id now in
      let l = format_post_list_key user_id in
      let s1 = (create_user ops user_id s).1 in
      let there : is_user ops contents store s1 user_id ≡ true =
        ground (arith, create_user-Creates ops contents store user_id s u, bytes_eqb_iff u u) in
      let l-p = keys_apart Distinct.post_list (Distinct.post now) user_id h tt t (λ e. cc) in
      let p-l = keys_apart (Distinct.post now) Distinct.post_list user_id h t tt (λ e. cc) in
      (
        ground (arith, post-Posts ops contents store user_id text now s1 p, there),
        ground (
          arith,
          post-Posts ops contents store user_id text now s1 p,
          there,
          l-p,
          bytes_eqb_iff p p,
        ),
        ground (
          arith,
          post-Posts ops contents store user_id text now s1 l,
          there,
          p-l,
          bytes_eqb_iff l l,
          bytes_eqb_iff p p,
          has-insert_sorted p p (list_of (contents s1 l)),
        ),
      )

  -- Over a store that does what its operations promise, for a user with no colon in the name, a time
  -- that 64 bits hold, and a web server that has application servers and connections to them: Post of
  -- the HTTP client returns OK with the key of the user and the time, whether there was such a user or
  -- not, whether the visitor is held up or not and whatever the load is; the text is in the store under
  -- that key, and the key is in the user's list of posts.
  pub post-stores :
      {F L : Type 0} (filter : Filter F) (latency : Latency L) (sort : List Bytes → List Bytes)
      (decoder : Decoder) (addr : Bytes) (delta : ℕ) (user_id text : Bytes) (now : ℤ)
      (ws : WebServer F L) (s : S)
      → IsDecoder decoder
      → ws.stw_servers ≢ []
      → AreClients ws.stw_conns
      → Lacks b':' user_id
      → IsInt64 now
      → let send = deliver filter latency (app_servers ops sort now) delta in
        let (reply, (ws', v)) = HttpClient.post send decoder addr user_id text (ws, s) in
        let key = format_post_key user_id now in
        (reply ≡ some (record { status = ok; post_key = key }))
        × (contents v key ≡ some (text ∷ []))
        × (has key (list_of (contents v (format_post_list_key user_id))) ≡ true)
  unfolding dispatch StwClient.post StwClient.create_user StwClient.call_status
  post-stores filter latency sort decoder addr delta user_id text now ws s d used c h t =
      let apps = app_servers ops sort now in
      let (host, chosen) = app_server_of-found ws.stw_servers user_id used in
      let reach : CanReach apps ws = record {
        has_server = used;
        are_clients = c;
        dials = λ host. refl;
      } in
      let (replied, state) =
        post-agrees filter latency apps decoder addr delta user_id text host ws s d reach chosen
          tt in
      let (p, at, listed) = post-create_user user_id text now s h t in
      (
        replied ∙ ap some p,
        ap (λ v. contents v (format_post_key user_id now)) state ∙ at,
        ap
              (λ v.
                has (format_post_key user_id now)
                  (list_of (contents v (format_post_list_key user_id))))
              state
            ∙ listed,
      )
