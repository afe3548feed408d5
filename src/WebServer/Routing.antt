-- ===== src/WebServer/Routing.antt =====
-- src/webserver/webserver_impl.go and src/webserver/webserver_api.go: `RequestHash` and `getStwConn`,
-- which choose the application server of a user.
use Prim.Native.Nat.{bit_xor}
use mathlib.Core.List.{reverse, reverse_aux}
use simple_twitter.Common.{
  ℕ, ◌*◌, ◌^◌, ◌∙◌, Option, Returns-map, done-injective, ◌%◌, ◌≡◌, ◌≢◌, refl, ap, sym, true, none,
  some, List, [], ◌∷◌, length, get_elem?, get_elem?-in_range, Option-cases, inl, inr, Outcome, done,
  panic, fatal, index, ◌>>=◌, Returns, arith, if◌then◌else◌,
}
use simple_twitter.Common.Order.{Bytes, bytes_order, bytes_eqb_iff}
use simple_twitter.Common.Map.{lookup, insert, lookup-insert}
use simple_twitter.Hash.{fnv32}
use simple_twitter.StorageServer.State.{Client}
use simple_twitter.StorageServer.Leases.Revoke.{AreClients}
use simple_twitter.StwServer.Dispatch.{Apps}
use simple_twitter.WebServer.State.{WebServer}

unfoldable pub request_hash : Bytes → ℕ
unfolding fnv32
request_hash user_id = fnv32 user_id 2166136261

-- Division by a length of zero panics.
unfoldable pub app_server_of : List Bytes → Bytes → Outcome Bytes
app_server_of [] user_id = panic
app_server_of (s ∷ servers) user_id =
    index (get_elem? (s ∷ servers) (request_hash user_id % length (s ∷ servers)))

module _ {F L W : Type 0} (apps : Apps W) where
  unfoldable pub get_stw_conn : Bytes → WebServer F L → Outcome (Client × WebServer F L)
  unfolding app_server_of
  get_stw_conn key ws = app_server_of ws.stw_servers key >>= λ host.
      elim (lookup host ws.stw_conns) [
        | some cli ↦ done (cli, ws)
        | none ↦
            let cli : Client = record { address = host } in
            if apps.dials host
            then done (cli, record ws { stw_conns = insert host cli ws.stw_conns })
            else fatal
      ]

index-done : {A : Type 0} (at : Option A) (a : A) → index at ≡ done a → at ≡ some a
index-done none a e = absurd cc
index-done (some b) a e = ap some (done-injective e)

pub app_server_of-found :
    (servers : List Bytes) (user_id : Bytes)
    → servers ≢ []
    → (host : Bytes) × (app_server_of servers user_id ≡ done host)
unfolding app_server_of
app_server_of-found [] user_id h = absurd (h refl)
app_server_of-found (s ∷ servers) user_id h =
    let (host, at) =
      get_elem?-in_range (s ∷ servers) (request_hash user_id % length (s ∷ servers))
        (ground arith) in
    (host, rw at refl)

pub get_stw_conn-connects :
    {F L W : Type 0} (apps : Apps W) (user_id : Bytes) (ws : WebServer F L)
    → ws.stw_servers ≢ []
    → AreClients ws.stw_conns
    → ((host : Bytes) → apps.dials host ≡ true)
    → Returns (get_stw_conn apps user_id ws) (λ (cli, ws').
      (app_server_of ws.stw_servers user_id ≡ done cli.address)
      × AreClients ws'.stw_conns
      × (ws' ≡ record ws { stw_conns = ws'.stw_conns })
      × (lookup cli.address ws'.stw_conns ≡ some cli)
      × ((host : Bytes)
          → host ≢ cli.address
          → lookup host ws'.stw_conns ≡ lookup host ws.stw_conns))
unfolding get_stw_conn
get_stw_conn-connects {F} {L} {W} apps user_id ws used c a =
    let (host, found) = app_server_of-found ws.stw_servers user_id used in
    rw found (elim (Option-cases (lookup host ws.stw_conns)) [
      | inl missing ↦
          rw (missing, Returns)
            (rw (a host) (
              refl,
              (λ h cli e. ground (
                arith,
                c h cli,
                lookup-insert {V = Client} host h (record { address = host }) ws.stw_conns,
                bytes_eqb_iff host h,
              )),
              refl,
              ground (
                arith,
                lookup-insert {V = Client} host host (record { address = host }) ws.stw_conns,
                bytes_eqb_iff host host,
              ),
              (λ h n. ground (
                arith,
                lookup-insert {V = Client} host h (record { address = host }) ws.stw_conns,
                bytes_eqb_iff host h,
              )),
            ))
      | inr (cli, there) ↦
          rw (there, Returns)
            (
              ap done (sym (c host cli there)),
              c,
              refl,
              ap (λ h. lookup h ws.stw_conns) (c host cli there) ∙ there,
              (λ h n. refl),
            )
    ])

-- FNV-1 over 32 bits, told from the last byte: the hash of all bytes but the last, times the prime,
-- modulo 2 ^ 32, exclusive or the last byte.
abbrev pub fnv_from_last : Bytes → ℕ
fnv_from_last [] = 2166136261
fnv_from_last (last ∷ earlier) = bit_xor (fnv_from_last earlier * 16777619 % 2 ^ 32) last

fnv32-fnv_from_last :
    (s earlier : Bytes) → fnv32 s (fnv_from_last earlier) ≡ fnv_from_last (reverse_aux s earlier)
unfolding fnv32
fnv32-fnv_from_last [] earlier = refl
fnv32-fnv_from_last (c ∷ s) earlier = fnv32-fnv_from_last s (c ∷ earlier)

-- The server at the place that the hash of the user has modulo the number of servers.
app_server_of-place :
    (servers : List Bytes) (user_id host : Bytes)
    → app_server_of servers user_id ≡ done host
    → get_elem? servers (fnv_from_last (reverse user_id) % length servers) ≡ some host
unfolding app_server_of request_hash
app_server_of-place [] user_id host e = absurd cc
app_server_of-place (s ∷ servers) user_id host e =
    rw (← fnv32-fnv_from_last user_id []) (index-done _ host e)

-- Where there is an application server, every connection is one to the address under which it is
-- kept, and dialling succeeds, getStwConn returns a connection to the server that stands in the
-- list at the place given by the user's hash modulo the number of servers, where the hash is FNV-1
-- over 32 bits. That connection is in the table afterwards, the connections to other addresses are
-- as before, every connection is one to its address, and nothing but the table changes.
pub get_stw_conn-chooses :
    {F L W : Type 0} (apps : Apps W) (user_id : Bytes) (ws : WebServer F L)
    → ws.stw_servers ≢ []
    → AreClients ws.stw_conns
    → ((host : Bytes) → apps.dials host ≡ true)
    → Returns (get_stw_conn apps user_id ws) (λ (cli, ws').
      (get_elem? ws.stw_servers (fnv_from_last (reverse user_id) % length ws.stw_servers)
        ≡ some cli.address)
      × (lookup cli.address ws'.stw_conns ≡ some cli)
      × ((host : Bytes) → host ≢ cli.address → lookup host ws'.stw_conns ≡ lookup host ws.stw_conns)
      × AreClients ws'.stw_conns
      × (ws' ≡ record ws { stw_conns = ws'.stw_conns }))
get_stw_conn-chooses apps user_id ws used c a =
    Returns-map (get_stw_conn apps user_id ws)
      (λ (cli, ws') q.
        (app_server_of-place ws.stw_servers user_id cli.address q.0, q.3, q.4, q.1, q.2))
      (get_stw_conn-connects apps user_id ws used c a)
