-- ===== src/HttpClient/Reaches.antt =====
-- The requests of the client through the web server to an application server.
use simple_twitter.Common.{ℕ, ◌≡◌, refl, ◌∙◌, Option, none, done}
use simple_twitter.Common.Order.{Bytes}
use simple_twitter.StorageServer.State.{Client}
use simple_twitter.StwServer.Dispatch.{Apps, create_user_call, post_call}
use simple_twitter.StwClient
use simple_twitter.WebServer.State.{HttpRequest, empty_page, Response, Filter, Latency, WebServer}
use simple_twitter.WebServer.Routing.{app_server_of}
use simple_twitter.WebServer.Gate.{ddos_protection_wrapper}
use simple_twitter.HttpClient.{
  Decoder, create_user, post, delete_post, users_request, post_request, delete_post_request,
}
use simple_twitter.HttpClient.Effects.{
  IsDecoder, IsStatus, IsPosted, status_or_unset, deliver, CanReach, wrapper_post,
  response_of-effect, create_user-effect, post-effect, delete_post-effect, can_reach,
  status-or_zero, post-reply_or,
}

module _ {F L W : Type 0} (filter : Filter F) (latency : Latency L) (apps : Apps W)
    (decoder : Decoder) (addr : Bytes) (delta : ℕ) where
  abbrev send : HttpRequest → WebServer F L × W → Option Response × (WebServer F L × W)
  send = deliver filter latency apps delta

  -- Through a web server that has application servers and can reach them, CreateUser of the HTTP
  -- client does to the application servers what CreateUser of the RPC client does at the server that
  -- the user's hash chooses, and returns the same status, whether the visitor is held up or not and
  -- whatever the load is; where the RPC client returns an error it returns the unset status.
  pub create_user-agrees :
      (user_id host : Bytes) (ws : WebServer F L) (w : W)
      → IsDecoder decoder
      → CanReach apps ws
      → app_server_of ws.stw_servers user_id ≡ done host
      → IsStatus (apps.call host (create_user_call user_id) w).0
      → let cli : Client = record { address = host } in
        let (status, v) = StwClient.create_user apps cli user_id w in
        let (status', (ws', v')) = create_user send decoder addr user_id (ws, w) in
        (status' ≡ status_or_unset status) × (v' ≡ v)
  unfolding create_user deliver StwClient.create_user StwClient.call_status users_request
  create_user-agrees user_id host ws w d reach chosen kind =
      let r = users_request addr user_id in
      let reply = apps.call host (create_user_call user_id) w in
      let (page, v) =
        response_of-effect filter latency apps decoder.status
          (ddos_protection_wrapper filter latency apps delta r ws w) (ws, w) _ reply.1
          (wrapper_post filter latency apps delta r ws w _ reply.1 refl (λ f.
            create_user-effect filter latency apps addr user_id host
              (record ws { zombie_filter = f }) w (can_reach f reach) chosen)) in
      (page ∙ status-or_zero decoder user_id reply.0 d kind, v)

  -- Through a web server that has application servers and can reach them, Post of the HTTP client does
  -- to the application servers what CreateUser and then Post of the RPC client do at the server that
  -- the user's hash chooses, and returns what that Post returns, a reply or an error, whether the
  -- visitor is held up or not and whatever the load is.
  pub post-agrees :
      (user_id text host : Bytes) (ws : WebServer F L) (w : W)
      → IsDecoder decoder
      → CanReach apps ws
      → app_server_of ws.stw_servers user_id ≡ done host
      → let cli : Client = record { address = host } in
        let (created, w1) = StwClient.create_user apps cli user_id w in
        IsPosted (apps.call host (post_call (record { user_id = user_id; contents = text })) w1).0
        → let (reply, v) = StwClient.post apps cli user_id text w1 in
          let (reply', (ws', v')) = post send decoder addr user_id text (ws, w) in
          (reply' ≡ reply) × (v' ≡ v)
  unfolding post deliver StwClient.create_user StwClient.call_status StwClient.post post_request
  post-agrees user_id text host ws w d reach chosen kind =
      let r = post_request addr user_id text in
      let w1 = (apps.call host (create_user_call user_id) w).1 in
      let reply = apps.call host (post_call (record { user_id = user_id; contents = text })) w1 in
      let (page, v) =
        response_of-effect filter latency apps decoder.post
          (ddos_protection_wrapper filter latency apps delta r ws w) (ws, w) _ reply.1
          (wrapper_post filter latency apps delta r ws w _ reply.1 refl (λ f.
            post-effect filter latency apps addr user_id text host (record ws { zombie_filter = f })
              w (can_reach f reach) chosen)) in
      (page ∙ post-reply_or decoder reply.0 d kind, v)

  -- DeletePost of the HTTP client returns an error for every user and every key, in every state of the
  -- web server, and the application servers stay as they are.
  pub delete_post-fails :
      (user_id post_key : Bytes) (ws : WebServer F L) (w : W)
      → IsDecoder decoder
      → let (status, (ws', w')) = delete_post send decoder addr user_id post_key (ws, w) in
        (status ≡ none) × (w' ≡ w)
  unfolding delete_post deliver
  delete_post-fails user_id post_key ws w d =
      let r = delete_post_request addr user_id post_key in
      let (page, v) =
        response_of-effect filter latency apps decoder.status
          (ddos_protection_wrapper filter latency apps delta r ws w) (ws, w) empty_page w
          (delete_post-effect filter latency apps delta addr user_id post_key ws w) in
      (page ∙ d.no_status, v)
