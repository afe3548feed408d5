-- ===== src/Tests/Web.antt =====
-- The web server and its clients in front of application servers whose store is a map.
use mathlib.Core.List.{reverse}
use simple_twitter.Common.{
  length, ◌%◌, get_elem?, ℕ, ◌+◌, ◌*◌, ◌/◌, ◌≡◌, ◌≢◌, refl, true, Option, none, some, List, [], ◌∷◌,
  All, done, Returns, leb, arith,
}
use simple_twitter.Common.Int.{pos}
use simple_twitter.Common.Order.{Bytes, bytes_order, bytes_eqb, bytes_eqb_iff}
use simple_twitter.Common.Map.{lookup}
use simple_twitter.Text.{codes, split}
use simple_twitter.Hash.{fnv32}
use simple_twitter.Slices.{has, remove}
use simple_twitter.Keys.{format_post_key, format_post_list_key}
use simple_twitter.StorageServer.State.{Client}
use simple_twitter.StorageServer.Leases.Revoke.{AreClients}
use simple_twitter.StwServer.Membership.{Status, ok}
use simple_twitter.StwServer.Posts.{PostReply}
use simple_twitter.StwServer.Store.{list_of}
use simple_twitter.StwServer.Timelines.{TimelineReply}
use simple_twitter.StwServer.Dispatch.{
  Apps, dispatch, app_servers, status_reply, post_replied, timeline_replied,
}
use simple_twitter.StwClient
use simple_twitter.WebServer.State.{
  HttpRequest, delete_method, Page, encoded, Filter, Latency, WebServer,
}
use simple_twitter.WebServer.Routing.{
  app_server_of, request_hash, get_stw_conn, fnv_from_last, get_stw_conn-chooses,
}
use simple_twitter.WebServer.Gate.{remote_ip}
use simple_twitter.WebServer.Answers.{IsReady, HasValues}
use simple_twitter.WebServer.Serves.{visit-Answers}
use simple_twitter.WebServer.Holds.{IsFilter, IsSilent, IsHeldUp, visit, visit-blocked}
use simple_twitter.HttpClient
use simple_twitter.HttpClient.{Decoder}
use simple_twitter.HttpClient.Effects.{IsDecoder, CanReach, deliver}
use simple_twitter.HttpClient.Reaches.{post-agrees, delete_post-fails}
use simple_twitter.HttpClient.Stores.{post-stores}
use simple_twitter.Tests.Data.{amy, bob, at, at-IsFair}
use simple_twitter.Cluster.Running.{contents_of}
use simple_twitter.Cluster.Implements.{ring_ops, ring_ops-IsStore}
use simple_twitter.Tests.Libstore.{at_time}
use simple_twitter.Tests.Cluster.{one_server_ring}
use simple_twitter.Tests.Sort.{sort_keys}
use simple_twitter.Tests.StwServer.{Store, map_ops, users}

abbrev listed : Filter (List Bytes)
listed = record { add = λ ip f. ip ∷ f; remove = remove; test = λ ip f. has ip f }

listed-IsFilter : IsFilter listed
unfolding has
listed-IsFilter = record { test_add = λ ip f. ground (arith, bytes_eqb_iff ip ip) }

abbrev milliseconds : Latency ℕ
milliseconds = record { blend = λ mean delta. (9 * mean + delta) / 10; is_high = leb 20 }

abbrev read_status : Page → Option Status
read_status (encoded (status_reply status)) = some status
read_status _ = none

abbrev read_post : Page → Option PostReply
read_post (encoded (post_replied reply)) = some reply
read_post _ = none

abbrev read_timeline : Page → Option TimelineReply
read_timeline (encoded (timeline_replied reply)) = some reply
read_timeline _ = none

abbrev json : Decoder
json = record { status = read_status; post = read_post; timeline = read_timeline }

json-IsDecoder : IsDecoder json
json-IsDecoder = record {
  reads_status = λ status. refl;
  reads_post = λ reply. refl;
  no_status = refl;
  no_post = refl;
}

abbrev app1 : Bytes
app1 = codes "localhost:8001"

abbrev app2 : Bytes
app2 = codes "localhost:8002"

abbrev visitor : Bytes
visitor = codes "10.0.0.7"

abbrev visitor_addr : Bytes
visitor_addr = codes "10.0.0.7:50000"

-- The visitor's address is in the filter.
abbrev web : WebServer (List Bytes) ℕ
web = record {
  stw_servers = app1 ∷ app2 ∷ [];
  stw_conns = [];
  zombie_filter = visitor ∷ [];
  under_high_load = true;
  avg_latency = 30;
}

web_servers : web.stw_servers ≢ []
web_servers e = cc

web-AreClients : AreClients web.stw_conns
unfolding lookup
web-AreClients host cli e = absurd (cc)

abbrev apps : Apps Store
apps = app_servers map_ops sort_keys (pos 1500)

web-CanReach : CanReach apps web
web-CanReach = record {
  has_server = web_servers;
  are_clients = web-AreClients;
  dials = λ host. refl;
}

amys_server : app_server_of web.stw_servers amy ≡ done app1
unfolding app_server_of request_hash fnv32
amys_server = refl

get_stw_conn-chooses_example : Returns (get_stw_conn apps amy web) (λ (cli, ws').
    (get_elem? web.stw_servers (fnv_from_last (reverse amy) % length web.stw_servers)
      ≡ some cli.address)
    × (lookup cli.address ws'.stw_conns ≡ some cli)
    × ((host : Bytes) → host ≢ cli.address → lookup host ws'.stw_conns ≡ lookup host web.stw_conns)
    × AreClients ws'.stw_conns
    × (ws' ≡ record web { stw_conns = ws'.stw_conns }))
get_stw_conn-chooses_example =
    get_stw_conn-chooses apps amy web web_servers web-AreClients (λ host. refl)

abbrev silent_requests : List (ℕ × HttpRequest)
silent_requests =
    (5, HttpClient.home_request visitor_addr amy)
    ∷ (5, HttpClient.subscription_request visitor_addr delete_method amy bob)
    ∷ []

quiet : All (IsSilent visitor) silent_requests
unfolding remote_ip split HttpClient.home_request HttpClient.subscription_request
quiet = ((refl, refl, λ e. cc), ((refl, refl, λ e. cc), tt))

visitor_known : has visitor web.zombie_filter ≡ true
unfolding has bytes_eqb
visitor_known = refl

visit-blocked_example :
    Returns (visit listed milliseconds apps silent_requests web users) (λ (responses, ws', s').
      All (IsHeldUp) responses × (s' ≡ users) × (has visitor ws'.zombie_filter ≡ true))
visit-blocked_example =
    visit-blocked listed milliseconds apps visitor silent_requests web users listed-IsFilter quiet
      visitor_known

post-agrees_example :
    let send = deliver listed milliseconds apps 5 in
    let cli : Client = record { address = app1 } in
    let (created, w1) = StwClient.create_user apps cli amy users in
    let (reply, v) = StwClient.post apps cli amy (codes "hello") w1 in
    let (reply', (ws', v')) =
      HttpClient.post send json visitor_addr amy (codes "hello") (web, users) in
    (reply' ≡ reply) × (v' ≡ v)
unfolding dispatch
post-agrees_example =
    post-agrees listed milliseconds apps json visitor_addr 5 amy (codes "hello") app1 web users
      json-IsDecoder web-CanReach amys_server tt

delete_post-fails_example :
    let send = deliver listed milliseconds apps 5 in
    let key = format_post_key amy (pos 1500) in
    let (status, (ws', s')) = HttpClient.delete_post send json visitor_addr amy key (web, users) in
    (status ≡ none) × (s' ≡ users)
delete_post-fails_example =
    delete_post-fails listed milliseconds apps json visitor_addr 5 amy
      (format_post_key amy (pos 1500)) web users json-IsDecoder

-- The store of the application servers is a ring of storage servers.
post-stores_example :
    let ops = ring_ops (λ n. at_time 100) (λ n. at 100) (λ n a. refl) (λ n. at-IsFair) in
    let send = deliver listed milliseconds (app_servers ops sort_keys (pos 1500)) 5 in
    let (reply, (ws', v)) =
      HttpClient.post send json visitor_addr amy (codes "hello") (web, one_server_ring) in
    let key = format_post_key amy (pos 1500) in
    (reply ≡ some (record { status = ok; post_key = key }))
    × (contents_of v.0 key ≡ some (codes "hello" ∷ []))
    × (has key (list_of (contents_of v.0 (format_post_list_key amy))) ≡ true)
post-stores_example =
    post-stores (ring_ops (λ n. at_time 100) (λ n. at 100) (λ n a. refl) (λ n. at-IsFair))
      (λ s. contents_of s.0)
      (ring_ops-IsStore (λ n. at_time 100) (λ n. at 100) (λ n a. refl) (λ n. at-IsFair)) listed
      milliseconds sort_keys json visitor_addr 5 amy (codes "hello") (pos 1500) web one_server_ring
      json-IsDecoder web_servers web-AreClients (omega arith) (omega arith)

abbrev mixed_requests : List (ℕ × HttpRequest)
mixed_requests =
    (5, HttpClient.post_request visitor_addr amy (codes "hello"))
    ∷ (40, HttpClient.home_request visitor_addr amy)
    ∷ (5, HttpClient.delete_post_request visitor_addr amy (codes "key"))
    ∷ []

home-HasValues : HasValues (HttpClient.home_request visitor_addr amy)
unfolding HttpClient.home_request lookup
home-HasValues param values e = ground arith

mixed-HasValues : All (λ (delta, r). HasValues r) mixed_requests
unfolding HttpClient.post_request HttpClient.delete_post_request lookup
mixed-HasValues =
    ((λ param values e. absurd (cc)), (home-HasValues, ((λ param values e. absurd (cc)), tt)))

visit-Answers_example :
    Returns
      (visit listed milliseconds apps mixed_requests web users)
      (λ (responses, ws', s'). (length responses ≡ length mixed_requests) × IsReady ws')
visit-Answers_example =
    visit-Answers listed milliseconds apps (λ host. refl) mixed_requests web users mixed-HasValues
      (record { used = web_servers; clients = web-AreClients })
