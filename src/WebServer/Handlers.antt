-- ===== src/WebServer/Handlers.antt =====
-- src/webserver/webserver_impl.go: `usersHandler`, `subscriptionHandler`, `postsHandler`,
-- `timelineHandler` and `homeHandler`. A handler takes the web server and the application servers to
-- their new states, and answers.
use simple_twitter.Common.{
  ℕ, Option, none, some, get_elem?, Outcome, done, index, ◌>>=◌, if◌then◌else◌,
}
use simple_twitter.Common.Order.{Bytes, bytes_eqb, bytes_order}
use simple_twitter.Common.Map.{lookup}
use simple_twitter.Text.{codes}
use simple_twitter.StorageServer.State.{Client}
use simple_twitter.StwServer.Dispatch.{
  AppReply, AppCall, create_user_call, timeline_call, home_timeline_call, subscribe_call,
  unsubscribe_call, post_call, delete_post_call, zero_reply, Apps,
}
use simple_twitter.WebServer.State.{
  Method, get_method, post_method, delete_method, other_method, HttpRequest, empty_page, echoed,
  error_text, file, encoded, Response, respond, status_ok, bad_request, internal_server_error,
  WebServer,
}
use simple_twitter.WebServer.Routing.{get_stw_conn}

-- `echoHandler`, after the status code was written.
abbrev pub echo : ℕ → HttpRequest → Response
echo code r = if r.readable then respond code echoed else respond bad_request error_text

abbrev pub user_id_param : Bytes
user_id_param = codes "UserID"

abbrev pub target_user_id_param : Bytes
target_user_id_param = codes "TargetUserID"

abbrev pub post_key_param : Bytes
post_key_param = codes "PostKey"

abbrev pub or_zero : AppCall → Option AppReply → AppReply
or_zero call none = zero_reply call
or_zero call (some reply) = reply

-- `if err = cli.Call(…); err != nil { w.WriteHeader(…) }`, else the reply is written.
abbrev pub reply_or : ℕ → Option AppReply → Response
reply_or code none = respond code empty_page
reply_or code (some reply) = respond status_ok (encoded reply)

abbrev pub Handled : Type 0 → Type 0 → Type 0 → Type 0
Handled F L W = Outcome (Response × WebServer F L × W)

module _ {F L W : Type 0} (apps : Apps W) where
  -- A call whose error is only logged: the reply is written as it is.
  unfoldable pub call_and_write : Client → AppCall → WebServer F L → W → Handled F L W
  call_and_write cli call ws w =
      let (reply, w') = apps.call cli.address call w in
      done (respond status_ok (encoded (or_zero call reply)), ws, w')

  -- A call whose error is answered with a status code.
  unfoldable pub call_or_fail : ℕ → Client → AppCall → WebServer F L → W → Handled F L W
  call_or_fail code cli call ws w =
      let (reply, w') = apps.call cli.address call w in done (reply_or code reply, ws, w')

  unfoldable pub create_users : HttpRequest → WebServer F L → W → Handled F L W
  unfolding call_and_write
  create_users r ws w = elim r.decoded [
    | none ↦ done (echo bad_request r, ws, w)
    | some args ↦ get_stw_conn apps args.user_id ws >>= λ (cli, ws').
        call_and_write cli (create_user_call args.user_id) ws' w
  ]

  unfoldable pub users_handler : HttpRequest → WebServer F L → W → Handled F L W
  unfolding create_users
  users_handler r ws w = elim r.method [
    | get_method ↦ done (echo status_ok r, ws, w)
    | post_method ↦ create_users r ws w
    | _ ↦ done (respond status_ok empty_page, ws, w)
  ]

  unfoldable pub subscription_method :
      Method → HttpRequest → Client → Bytes → Bytes → WebServer F L → W → Handled F L W
  unfolding call_and_write
  subscription_method get_method r cli s t ws w = done (echo status_ok r, ws, w)
  subscription_method post_method r cli s t ws w = call_and_write cli (subscribe_call s t) ws w
  subscription_method delete_method r cli s t ws w = call_and_write cli (unsubscribe_call s t) ws w
  subscription_method other_method r cli s t ws w = done (echo bad_request r, ws, w)

  unfoldable pub subscription_handler : HttpRequest → WebServer F L → W → Handled F L W
  unfolding subscription_method
  subscription_handler r ws w = elim (lookup user_id_param r.query) [
    | none ↦ done (respond bad_request empty_page, ws, w)
    | some ss ↦ elim (lookup target_user_id_param r.query) [
      | none ↦ done (respond bad_request empty_page, ws, w)
      | some ts ↦ index (get_elem? ss 0) >>= λ s. index (get_elem? ts 0) >>= λ t.
          get_stw_conn apps s ws >>= λ (cli, ws'). subscription_method r.method r cli s t ws' w
    ]
  ]

  unfoldable pub create_posts : HttpRequest → WebServer F L → W → Handled F L W
  unfolding call_or_fail
  create_posts r ws w = elim r.decoded [
    | none ↦ done (echo bad_request r, ws, w)
    | some args ↦ get_stw_conn apps args.user_id ws >>= λ (cli, ws').
        let (reply0, w1) = apps.call cli.address (create_user_call args.user_id) w in
        call_or_fail internal_server_error cli (post_call args) ws' w1
  ]

  unfoldable pub delete_posts : HttpRequest → WebServer F L → W → Handled F L W
  unfolding call_or_fail
  delete_posts r ws w = elim (lookup user_id_param r.query) [
    | none ↦ done (respond bad_request empty_page, ws, w)
    | some uids ↦ elim (lookup post_key_param r.query) [
      | none ↦ done (respond bad_request empty_page, ws, w)
      | some post_keys ↦ index (get_elem? uids 0) >>= λ uid.
          index (get_elem? post_keys 0) >>= λ post_key. get_stw_conn apps uid ws >>= λ (cli, ws').
          call_or_fail bad_request cli (delete_post_call uid post_key) ws' w
    ]
  ]

  unfoldable pub posts_handler : HttpRequest → WebServer F L → W → Handled F L W
  unfolding create_posts delete_posts
  posts_handler r ws w = elim r.method [
    | post_method ↦ create_posts r ws w
    | delete_method ↦ delete_posts r ws w
    | _ ↦ done (echo bad_request r, ws, w)
  ]

  unfoldable pub timeline_handler : HttpRequest → WebServer F L → W → Handled F L W
  unfolding call_or_fail
  timeline_handler r ws w = elim (lookup user_id_param r.query) [
    | none ↦ done (echo bad_request r, ws, w)
    | some uids ↦ index (get_elem? uids 0) >>= λ uid. get_stw_conn apps uid ws >>= λ (cli, ws').
        let (reply0, w1) = apps.call cli.address (create_user_call uid) w in
        call_or_fail internal_server_error cli (timeline_call uid) ws' w1
  ]

  unfoldable pub home_handler : HttpRequest → WebServer F L → W → Handled F L W
  unfolding call_or_fail
  home_handler r ws w = elim (lookup user_id_param r.query) [
    | none ↦ done (echo bad_request r, ws, w)
    | some uids ↦ index (get_elem? uids 0) >>= λ uid. get_stw_conn apps uid ws >>= λ (cli, ws').
        let (reply0, w1) = apps.call cli.address (create_user_call uid) w in
        let (reply1, w2) = apps.call cli.address (subscribe_call uid uid) w1 in
        call_or_fail internal_server_error cli (home_timeline_call uid) ws' w2
  ]

  -- The routes that `NewWebServer` sets up. Any other path is left to Go's file server: `file` stands
  -- for what that answers, whatever its status.
  unfoldable pub serve_mux : HttpRequest → WebServer F L → W → Handled F L W
  unfolding users_handler subscription_handler posts_handler timeline_handler home_handler
  serve_mux r ws w =
      if bytes_eqb r.path (codes "/users")
      then users_handler r ws w
      else if bytes_eqb r.path (codes "/subscriptions")
      then subscription_handler r ws w
      else if bytes_eqb r.path (codes "/posts")
      then posts_handler r ws w
      else if bytes_eqb r.path (codes "/timeline")
      then timeline_handler r ws w
      else if bytes_eqb r.path (codes "/home")
      then home_handler r ws w
      else done (respond status_ok file, ws, w)
