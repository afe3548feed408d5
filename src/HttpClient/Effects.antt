-- ===== src/HttpClient/Effects.antt =====
-- What the requests of the client make the web server do to the application servers.
use simple_twitter.Common.{
  ℕ, ◌≡◌, ◌≢◌, done-injective, refl, sym, ap, ◌∙◌, true, Option, none, some, [], done, panic, fatal,
  Returns, Returns-map, Returns-bind, Bool-cases, inl, inr, if◌then◌else◌,
}
use simple_twitter.Common.Order.{Bytes, bytes_eqb}
use simple_twitter.Common.Map.{lookup}
use simple_twitter.StorageServer.Leases.Revoke.{AreClients}
use simple_twitter.StwServer.Membership.{Status, unset}
use simple_twitter.StwServer.Posts.{PostReply}
use simple_twitter.StwServer.Dispatch.{
  Apps, AppReply, create_user_call, post_call, status_reply, post_replied, timeline_replied,
}
use simple_twitter.StwClient
use simple_twitter.WebServer.State.{
  post_method, HttpRequest, Page, empty_page, encoded, Response, Filter, Latency, WebServer,
}
use simple_twitter.WebServer.Routing.{app_server_of, get_stw_conn, get_stw_conn-connects}
use simple_twitter.WebServer.Handlers.{
  Handled, or_zero, reply_or, call_and_write, call_or_fail, create_users, users_handler,
  create_posts, posts_handler, delete_posts, serve_mux,
}
use simple_twitter.WebServer.Gate.{
  remote_ip-total, is_held, serve_puzzle, serve_timed, ddos_protection_wrapper,
}
use simple_twitter.HttpClient.{Decoder, users_request, post_request, delete_post_request, read_page}

-- A page with a reply in JSON is read as that reply, and an empty page is an error.
pub record IsDecoder (decoder : Decoder) : Type 0 where
  pub reads_status :
      (status : Status) → decoder.status (encoded (status_reply status)) ≡ some status
  pub reads_post : (reply : PostReply) → decoder.post (encoded (post_replied reply)) ≡ some reply
  pub no_status : decoder.status empty_page ≡ none
  pub no_post : decoder.post empty_page ≡ none

-- The call fails or answers with a status.
abbrev pub IsStatus : Option AppReply → Type 0
IsStatus none = Unit
IsStatus (some (status_reply status)) = Unit
IsStatus (some (post_replied reply)) = ⊥
IsStatus (some (timeline_replied reply)) = ⊥

-- The call fails or answers with what Post replies.
abbrev pub IsPosted : Option AppReply → Type 0
IsPosted none = Unit
IsPosted (some (status_reply status)) = ⊥
IsPosted (some (post_replied reply)) = Unit
IsPosted (some (timeline_replied reply)) = ⊥

abbrev pub status_or_unset : Option Status → Option Status
status_or_unset none = some unset
status_or_unset (some status) = some status

-- The web server has application servers to choose from, and can reach them.
pub record CanReach {F L W : Type 0} (apps : Apps W) (ws : WebServer F L) : Type 0 where
  pub has_server : ws.stw_servers ≢ []
  pub are_clients : AreClients ws.stw_conns
  pub dials : (host : Bytes) → apps.dials host ≡ true

module _ {F L W : Type 0} (filter : Filter F) (latency : Latency L) (apps : Apps W) where
  -- The network between a client and a web server: a request that makes the handler panic, or the
  -- process end, has no response.
  abbrev pub response_of : Handled F L W → WebServer F L × W → Option Response × (WebServer F L × W)
  response_of (done (response, ws, w)) n = (some response, (ws, w))
  response_of panic n = (none, n)
  response_of fatal n = (none, n)

  unfoldable pub deliver :
      ℕ → HttpRequest → WebServer F L × W → Option Response × (WebServer F L × W)
  unfolding ddos_protection_wrapper
  deliver delta r (ws, w) =
      response_of (ddos_protection_wrapper filter latency apps delta r ws w) (ws, w)

  -- The same page, and the same new state of the application servers.
  abbrev pub HasEffect : Page → W → Response × WebServer F L × W → Type 0
  HasEffect page v (response, ws, w) = (response.page ≡ page) × (w ≡ v)

  -- A POST has the effect that its handler has, held up or not.
  pub wrapper_post :
      (delta : ℕ) (r : HttpRequest) (ws : WebServer F L) (w : W) (page : Page) (v : W)
      → r.method ≡ post_method
      → ((f : F)
          → Returns (serve_mux apps r (record ws { zombie_filter = f }) w) (HasEffect page v))
      → Returns (ddos_protection_wrapper filter latency apps delta r ws w) (HasEffect page v)
  unfolding ddos_protection_wrapper serve_puzzle serve_timed
  wrapper_post delta r ws w page v e h =
      let (ip, at) = remote_ip-total r in
      rw at (elim (Bool-cases (is_held filter latency apps ip r ws)) [
        | inl held ↦
            rw (held, e, serve_puzzle)
              (Returns-bind
                (serve_mux apps r
                  (record ws {
                    zombie_filter =
                        if filter.test ip ws.zombie_filter
                        then filter.remove ip ws.zombie_filter
                        else ws.zombie_filter;
                  })
                  w)
                _ _ _ (h _) (λ out p. p))
        | inr free ↦
            rw free (Returns-bind (serve_mux apps r ws w) _ _ _ (h ws.zombie_filter) (λ out p. p))
      ])

  pub response_of-effect :
      {A : Type 0} (decode : Page → Option A) (m : Handled F L W) (n : WebServer F L × W)
      (page : Page) (v : W)
      → Returns m (HasEffect page v)
      → let (response, n') = response_of m n in
        (read_page decode response ≡ decode page) × (n'.1 ≡ v)
  response_of-effect decode (done (response, ws, w)) n page v (p, q) = (ap decode p, q)
  response_of-effect decode panic n page v h = absurd h
  response_of-effect decode fatal n page v h = absurd h

  -- The server that is chosen gets the call.
  routed :
      (user_id host : Bytes) (ws : WebServer F L)
      → CanReach apps ws
      → app_server_of ws.stw_servers user_id ≡ done host
      → Returns (get_stw_conn apps user_id ws) (λ (cli, ws'). cli.address ≡ host)
  routed user_id host ws reach chosen =
      Returns-map (get_stw_conn apps user_id ws) (λ (cli, ws') q. done-injective (sym q.0 ∙ chosen))
        (get_stw_conn-connects apps user_id ws reach.has_server reach.are_clients reach.dials)

  pub create_user-effect :
      (addr user_id host : Bytes) (ws : WebServer F L) (w : W)
      → CanReach apps ws
      → app_server_of ws.stw_servers user_id ≡ done host
      → let (reply, v) = apps.call host (create_user_call user_id) w in
        Returns
          (serve_mux apps (users_request addr user_id) ws w)
          (HasEffect (encoded (or_zero (create_user_call user_id) reply)) v)
  unfolding serve_mux users_handler create_users call_and_write users_request bytes_eqb
  create_user-effect addr user_id host ws w reach chosen =
      Returns-bind (get_stw_conn apps user_id ws) _ _ _ (routed user_id host ws reach chosen)
        (λ (cli, ws') e. rw e (refl, refl))

  pub post-effect :
      (addr user_id text host : Bytes) (ws : WebServer F L) (w : W)
      → CanReach apps ws
      → app_server_of ws.stw_servers user_id ≡ done host
      → let w1 = (apps.call host (create_user_call user_id) w).1 in
        let (reply, v) =
          apps.call host (post_call (record { user_id = user_id; contents = text })) w1 in
        Returns
          (serve_mux apps (post_request addr user_id text) ws w)
          (HasEffect (reply_or 500 reply).page v)
  unfolding serve_mux posts_handler create_posts call_or_fail post_request bytes_eqb
  post-effect addr user_id text host ws w reach chosen =
      Returns-bind (get_stw_conn apps user_id ws) _ _ _ (routed user_id host ws reach chosen)
        (λ (cli, ws') e. rw e (refl, refl))

  -- There is no user in the URL of the request.
  pub delete_post-effect :
      (delta : ℕ) (addr user_id post_key : Bytes) (ws : WebServer F L) (w : W)
      → Returns
          (ddos_protection_wrapper filter latency apps delta
            (delete_post_request addr user_id post_key)
            ws
            w)
          (HasEffect empty_page w)
  unfolding ddos_protection_wrapper serve_puzzle serve_timed serve_mux posts_handler delete_posts
      delete_post_request bytes_eqb lookup
  delete_post-effect delta addr user_id post_key ws w =
      let r = delete_post_request addr user_id post_key in
      let (ip, at) = remote_ip-total r in
      rw at (elim (Bool-cases (is_held filter latency apps ip r ws)) [
        | inl held ↦ rw (held, serve_puzzle) (refl, refl)
        | inr free ↦ rw free (refl, refl)
      ])

pub can_reach :
    {F L W : Type 0} {apps : Apps W} {ws : WebServer F L} (f : F)
    → CanReach apps ws
    → CanReach apps (record ws { zombie_filter = f })
can_reach f reach = record {
  has_server = reach.has_server;
  are_clients = reach.are_clients;
  dials = reach.dials;
}

pub status-or_zero :
    (decoder : Decoder) (user_id : Bytes) (reply : Option AppReply)
    → IsDecoder decoder
    → IsStatus reply
    → decoder.status (encoded (or_zero (create_user_call user_id) reply))
      ≡ status_or_unset (StwClient.as_status reply)
status-or_zero decoder user_id none d k = d.reads_status unset
status-or_zero decoder user_id (some (status_reply status)) d k = d.reads_status status
status-or_zero decoder user_id (some (post_replied reply)) d k = absurd k
status-or_zero decoder user_id (some (timeline_replied reply)) d k = absurd k

pub post-reply_or :
    (decoder : Decoder) (reply : Option AppReply)
    → IsDecoder decoder
    → IsPosted reply
    → decoder.post (reply_or 500 reply).page ≡ StwClient.as_post reply
post-reply_or decoder none d k = d.no_post
post-reply_or decoder (some (status_reply status)) d k = absurd k
post-reply_or decoder (some (post_replied reply)) d k = d.reads_post reply
post-reply_or decoder (some (timeline_replied reply)) d k = absurd k
