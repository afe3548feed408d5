-- ===== src/WebServer/Gate.antt =====
-- src/webserver/webserver_impl.go: `servePuzzle` and `ddosProtectionWrapper`, through which every
-- request passes, and `NewWebServer`.
use simple_twitter.Common.{
  ◌≡◌, refl, ℕ, Bool, true, false, not, ◌&&◌, ◌||◌, Option, none, some, List, [], get_elem?,
  Outcome, done, index, ◌>>=◌, if◌then◌else◌,
}
use simple_twitter.Common.Order.{Bytes}
use simple_twitter.Text.{split}
use simple_twitter.Text.Split.{split-first_part}
use simple_twitter.Startup.{await_servers}
use simple_twitter.StwServer.Membership.{PeersReply}
use simple_twitter.StwServer.Join.{ready_peers}
use simple_twitter.StwServer.Dispatch.{Apps}
use simple_twitter.WebServer.State.{
  get_method, post_method, HttpRequest, puzzle, empty_page, respond, status_ok, Filter, Latency,
  WebServer,
}
use simple_twitter.WebServer.Handlers.{Handled, serve_mux}

-- `strings.Split(r.RemoteAddr,":")[0]`
unfoldable pub remote_ip : HttpRequest → Outcome Bytes
remote_ip r = index (get_elem? (split b':' r.remote_addr) 0)

pub remote_ip-total : (r : HttpRequest) → (ip : Bytes) × (remote_ip r ≡ done ip)
unfolding remote_ip
remote_ip-total r = let (ip, at) = split-first_part b':' r.remote_addr in (ip, rw at refl)

module _ {F L W : Type 0} (filter : Filter F) (latency : Latency L) (apps : Apps W) where
  unfoldable pub serve_puzzle : Bytes → HttpRequest → WebServer F L → W → Handled F L W
  serve_puzzle ip r ws w = elim r.method [
    | post_method ↦
        let zombies = ws.zombie_filter in
        let zombies' = if filter.test ip zombies then filter.remove ip zombies else zombies in
        serve_mux apps r (record ws { zombie_filter = zombies' }) w >>= λ (response, ws', w').
        done (record response { sets_passcode = true }, ws', w')
    | get_method ↦
        done (
          respond status_ok puzzle,
          record ws { zombie_filter = filter.add ip ws.zombie_filter },
          w,
        )
    | _ ↦ done (respond status_ok empty_page, ws, w)
  ]

  -- The request is served at once, and the time that it took goes into the mean.
  unfoldable pub serve_timed : ℕ → HttpRequest → WebServer F L → W → Handled F L W
  serve_timed delta r ws w = serve_mux apps r ws w >>= λ (response, ws', w').
      let mean = latency.blend ws'.avg_latency delta in
      done (response, record ws' { avg_latency = mean; under_high_load = latency.is_high mean }, w')

  -- A visitor with no passcode is held up under high load, or if the address is in the filter.
  abbrev pub is_held : Bytes → HttpRequest → WebServer F L → Bool
  is_held ip r ws = not r.has_passcode && (ws.under_high_load || filter.test ip ws.zombie_filter)

  unfoldable pub ddos_protection_wrapper : ℕ → HttpRequest → WebServer F L → W → Handled F L W
  unfolding serve_puzzle serve_timed
  ddos_protection_wrapper delta r ws w = remote_ip r >>= λ ip.
      if is_held ip r ws then serve_puzzle ip r ws w else serve_timed delta r ws w

-- How `NewWebServer` ends: with a server, or with an error of its own.
pub data Created (F L : Type 0) : Type 0 where
  created : WebServer F L → Created F L
  dial_error timeout_error : Created F L

abbrev pub ready_attempts : ℕ
ready_attempts = 5

-- `empty` is a new filter, `zero` the latency of a new server.
unfoldable pub new_web_server :
    {F L : Type 0}
    → F
    → L
    → (has_master dials : Bool) → (ℕ → Option PeersReply)
    → Outcome (Created F L)
new_web_server empty zero has_master dials reply =
    let server : List Bytes → WebServer _ _ = λ servers. record {
      stw_servers = servers;
      stw_conns = [];
      zombie_filter = empty;
      under_high_load = false;
      avg_latency = zero;
    } in
    if not has_master
    then done (created (server []))
    else if not dials
    then done dial_error
    else await_servers (λ i. ready_peers (reply i)) 0 ready_attempts >>= λ found. elim found [
      | none ↦ done timeout_error
      | some servers ↦ done (created (server servers))
    ]
