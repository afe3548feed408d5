-- ===== src/WebServer/Answers.antt =====
-- Each handler of the web server returns, whatever is sent to it.
use simple_twitter.Common.{
  ◌≡◌, ◌≢◌, refl, ap, Bool, true, false, some, List, [], ◌∷◌, get_elem?, done, index, ◌>>=◌,
  Returns, Returns-map, Returns-bind, Option-cases, inl, inr, if◌then◌else◌,
}
use simple_twitter.Common.Order.{Bytes, bytes_eqb, bytes_order}
use simple_twitter.Common.Map.{lookup}
use simple_twitter.Text.{codes}
use simple_twitter.StorageServer.State.{Client}
use simple_twitter.StorageServer.Leases.Revoke.{AreClients}
use simple_twitter.StwServer.Dispatch.{Apps}
use simple_twitter.WebServer.State.{
  Method, get_method, post_method, delete_method, other_method, HttpRequest, WebServer,
}
use simple_twitter.WebServer.Routing.{get_stw_conn, get_stw_conn-connects}
use simple_twitter.WebServer.Handlers.{
  Handled, user_id_param, target_user_id_param, post_key_param, call_and_write, call_or_fail,
  create_users, users_handler, subscription_method, subscription_handler, create_posts,
  delete_posts, posts_handler, timeline_handler, home_handler, serve_mux,
}

-- There are application servers, and every connection is one to its address.
pub record IsReady {F L : Type 0} (ws : WebServer F L) : Type 0 where
  pub used : ws.stw_servers ≢ []
  pub clients : AreClients ws.stw_conns

-- The query of a URL has no parameter without a value.
abbrev pub HasValues : HttpRequest → Type 0
HasValues r =
    (param : Bytes) (values : List Bytes) → lookup param r.query ≡ some values → values ≢ []

first_of : (values : List Bytes) → values ≢ [] → (v : Bytes) × (index (get_elem? values 0) ≡ done v)
first_of [] h = absurd (h refl)
first_of (v ∷ values) h = (v, refl)

module _ {F L W : Type 0} (apps : Apps W) (dials : (host : Bytes) → apps.dials host ≡ true) where
  abbrev pub Answers : Handled F L W → Type 0
  Answers m = Returns m (λ (response, ws, w). IsReady ws)

  routed-Answers :
      (here : Bool) (m m' : Handled F L W)
      → Answers m
      → Answers m'
      → Answers (if here then m else m')
  routed-Answers true m m' a b = a
  routed-Answers false m m' a b = b

  connected :
      (user_id : Bytes) (ws : WebServer F L)
      → IsReady ws
      → Returns (get_stw_conn apps user_id ws) (λ (cli, ws'). IsReady ws')
  connected user_id ws r =
      Returns-map (get_stw_conn apps user_id ws)
        (λ (cli, ws') (chosen, clients, same, here, kept). record {
          used = rw (ap (λ x. x.stw_servers) same) r.used;
          clients = clients;
        })
        (get_stw_conn-connects apps user_id ws r.used r.clients dials)

  -- What a handler does with the first value of a parameter.
  for_first-Answers :
      (param : Bytes) (r : HttpRequest) (values : List Bytes) (serve : Bytes → Handled F L W)
      → HasValues r
      → lookup param r.query ≡ some values
      → ((v : Bytes) → Answers (serve v))
      → Answers (index (get_elem? values 0) >>= serve)
  for_first-Answers param r values serve h e a =
      let (v, at) = first_of values (h param values e) in rw at (a v)

  for_user-Answers :
      (user_id : Bytes) (ws : WebServer F L) (serve : Client × WebServer F L → Handled F L W)
      → IsReady ws
      → ((cli : Client) (ws' : WebServer F L) → IsReady ws' → Answers (serve (cli, ws')))
      → Answers (get_stw_conn apps user_id ws >>= serve)
  for_user-Answers user_id ws serve r a =
      Returns-bind (get_stw_conn apps user_id ws) _ _ _ (connected user_id ws r)
        (λ (cli, ws') q. a cli ws' q)

  module _ (r : HttpRequest) (ws : WebServer F L) (w : W) (ready : IsReady ws) where
    create_users-Answers : Answers (create_users apps r ws w)
    unfolding create_users call_and_write
    create_users-Answers = elim (Option-cases r.decoded) [
      | inl missing ↦ rw (missing, Returns) ready
      | inr (args, e) ↦ rw (e, Returns) (for_user-Answers args.user_id ws _ ready (λ cli ws' q. q))
    ]

    create_posts-Answers : Answers (create_posts apps r ws w)
    unfolding create_posts call_or_fail
    create_posts-Answers = elim (Option-cases r.decoded) [
      | inl missing ↦ rw (missing, Returns) ready
      | inr (args, e) ↦ rw (e, Returns) (for_user-Answers args.user_id ws _ ready (λ cli ws' q. q))
    ]

    subscription_method-Answers :
        (m : Method) (cli : Client) (s t : Bytes)
        → Answers (subscription_method apps m r cli s t ws w)
    unfolding subscription_method call_and_write
    subscription_method-Answers get_method cli s t = ready
    subscription_method-Answers post_method cli s t = ready
    subscription_method-Answers delete_method cli s t = ready
    subscription_method-Answers other_method cli s t = ready

  module _ (r : HttpRequest) (values : HasValues r) (ws : WebServer F L) (w : W)
      (ready : IsReady ws) where
    subscription_handler-Answers : Answers (subscription_handler apps r ws w)
    unfolding subscription_handler
    subscription_handler-Answers = elim (Option-cases (lookup user_id_param r.query)) [
      | inl missing ↦ rw (missing, Returns) ready
      | inr (ss, e) ↦
          rw (e, Returns)
            (elim (Option-cases (lookup target_user_id_param r.query)) [
              | inl missing ↦ rw (missing, Returns) ready
              | inr (ts, e') ↦
                  rw (e', Returns)
                    (for_first-Answers user_id_param r ss _ values e (λ s.
                      for_first-Answers target_user_id_param r ts _ values e' (λ t.
                        for_user-Answers s ws _ ready
                          (λ cli ws' q. subscription_method-Answers r ws' w q r.method cli s t))))
            ])
    ]

    delete_posts-Answers : Answers (delete_posts apps r ws w)
    unfolding delete_posts call_or_fail
    delete_posts-Answers = elim (Option-cases (lookup user_id_param r.query)) [
      | inl missing ↦ rw (missing, Returns) ready
      | inr (uids, e) ↦
          rw (e, Returns)
            (elim (Option-cases (lookup post_key_param r.query)) [
              | inl missing ↦ rw (missing, Returns) ready
              | inr (post_keys, e') ↦
                  rw (e', Returns)
                    (for_first-Answers user_id_param r uids _ values e (λ uid.
                      for_first-Answers post_key_param r post_keys _ values e'
                        (λ post_key. for_user-Answers uid ws _ ready (λ cli ws' q. q))))
            ])
    ]

    timeline_handler-Answers : Answers (timeline_handler apps r ws w)
    unfolding timeline_handler call_or_fail
    timeline_handler-Answers = elim (Option-cases (lookup user_id_param r.query)) [
      | inl missing ↦ rw (missing, Returns) ready
      | inr (uids, e) ↦
          rw (e, Returns)
            (for_first-Answers user_id_param r uids _ values e
              (λ uid. for_user-Answers uid ws _ ready (λ cli ws' q. q)))
    ]

    home_handler-Answers : Answers (home_handler apps r ws w)
    unfolding home_handler call_or_fail
    home_handler-Answers = elim (Option-cases (lookup user_id_param r.query)) [
      | inl missing ↦ rw (missing, Returns) ready
      | inr (uids, e) ↦
          rw (e, Returns)
            (for_first-Answers user_id_param r uids _ values e
              (λ uid. for_user-Answers uid ws _ ready (λ cli ws' q. q)))
    ]

    users_handler-Answers : (m : Method) → r.method ≡ m → Answers (users_handler apps r ws w)
    unfolding users_handler
    users_handler-Answers get_method e = rw (e, Returns) ready
    users_handler-Answers post_method e = rw e (create_users-Answers r ws w ready)
    users_handler-Answers delete_method e = rw (e, Returns) ready
    users_handler-Answers other_method e = rw (e, Returns) ready

    posts_handler-Answers : (m : Method) → r.method ≡ m → Answers (posts_handler apps r ws w)
    unfolding posts_handler
    posts_handler-Answers get_method e = rw (e, Returns) ready
    posts_handler-Answers post_method e = rw e (create_posts-Answers r ws w ready)
    posts_handler-Answers delete_method e = rw e delete_posts-Answers
    posts_handler-Answers other_method e = rw (e, Returns) ready

    pub serve_mux-Answers : Answers (serve_mux apps r ws w)
    unfolding serve_mux
    serve_mux-Answers =
        routed-Answers (bytes_eqb r.path (codes "/users")) _ _ (users_handler-Answers r.method refl)
          (routed-Answers (bytes_eqb r.path (codes "/subscriptions")) _ _
            subscription_handler-Answers
            (routed-Answers (bytes_eqb r.path (codes "/posts")) _ _
              (posts_handler-Answers r.method refl)
              (routed-Answers (bytes_eqb r.path (codes "/timeline")) _ _ timeline_handler-Answers (
                routed-Answers (bytes_eqb r.path (codes "/home")) _ _ home_handler-Answers ready))))
