-- ===== src/WebServer/Serves.antt =====
-- The web server answers whatever is sent to it.
use simple_twitter.Common.{
  ℕ, suc, ◌≡◌, refl, ap, true, List, [], ◌∷◌, length, All, Returns, Returns-bind, Bool-cases, inl,
  inr,
}
use simple_twitter.Common.Order.{Bytes}
use simple_twitter.StwServer.Dispatch.{Apps}
use simple_twitter.WebServer.State.{
  Method, get_method, post_method, delete_method, other_method, HttpRequest, Filter, Latency,
  WebServer,
}
use simple_twitter.WebServer.Handlers.{serve_mux}
use simple_twitter.WebServer.Gate.{
  remote_ip-total, is_held, serve_puzzle, serve_timed, ddos_protection_wrapper,
}
use simple_twitter.WebServer.Holds.{visit}
use simple_twitter.WebServer.Answers.{IsReady, HasValues, Answers, serve_mux-Answers}

module _ {F L W : Type 0} (filter : Filter F) (latency : Latency L) (apps : Apps W)
    (dials : (host : Bytes) → apps.dials host ≡ true) where
  serve_puzzle-Answers :
      (ip : Bytes) (r : HttpRequest) (ws : WebServer F L) (w : W) (m : Method)
      → r.method ≡ m
      → HasValues r
      → IsReady ws
      → Answers apps dials (serve_puzzle filter latency apps ip r ws w)
  unfolding serve_puzzle
  serve_puzzle-Answers ip r ws w get_method e v ready =
      rw (e, Returns) (record { used = ready.used; clients = ready.clients })
  serve_puzzle-Answers ip r ws w post_method e v ready =
      rw (e, serve_puzzle)
        (Returns-bind (serve_mux apps r _ w) _ _ _
          (serve_mux-Answers apps dials r v _ w
            (record { used = ready.used; clients = ready.clients }))
          (λ out q. q))
  serve_puzzle-Answers ip r ws w delete_method e v ready = rw (e, Returns) ready
  serve_puzzle-Answers ip r ws w other_method e v ready = rw (e, Returns) ready

  ddos_protection_wrapper-Answers :
      (delta : ℕ) (r : HttpRequest) (ws : WebServer F L) (w : W)
      → HasValues r
      → IsReady ws
      → Answers apps dials (ddos_protection_wrapper filter latency apps delta r ws w)
  unfolding ddos_protection_wrapper serve_timed
  ddos_protection_wrapper-Answers delta r ws w v ready =
      let (ip, at) = remote_ip-total r in
      rw at (elim (Bool-cases (is_held filter latency apps ip r ws)) [
        | inl held ↦ rw held (serve_puzzle-Answers ip r ws w r.method refl v ready)
        | inr free ↦ rw free (
            Returns-bind (serve_mux apps r ws w) _ _ _ (serve_mux-Answers apps dials r v ws w ready)
              (λ out q. record { used = q.used; clients = q.clients }))
      ])

  -- A web server that has application servers, and connections to them, where dialling succeeds,
  -- serves every sequence of requests whose parameters have values, whatever their methods, paths,
  -- bodies and senders are and whatever the application servers answer: no handler panics and the
  -- process does not exit, every request gets a response, and the server is again one that has
  -- application servers and connections to them.
  pub visit-Answers :
      (requests : List (ℕ × HttpRequest)) (ws : WebServer F L) (w : W)
      → All (λ (delta, r). HasValues r) requests
      → IsReady ws
      → Returns
          (visit filter latency apps requests ws w)
          (λ (responses, ws', w'). (length responses ≡ length requests) × IsReady ws')
  unfolding visit
  visit-Answers [] ws w v ready = (refl, ready)
  visit-Answers ((delta, r) ∷ rest) ws w v ready =
      Returns-bind (ddos_protection_wrapper filter latency apps delta r ws w) _ _ _
        (ddos_protection_wrapper-Answers delta r ws w v.0 ready)
        (λ (response, ws', w') q.
          Returns-bind (visit filter latency apps rest ws' w') _ _ _
            (visit-Answers rest ws' w' v.1 q) (λ out t. (ap suc t.0, t.1)))
