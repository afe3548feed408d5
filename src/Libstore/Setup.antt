-- ===== src/Libstore/Setup.antt =====
-- src/libstore/libstore_impl.go: `NewLibstore`. `reply i` is the master's answer to the `i`-th
-- GetServers, `none` for a failed call; `dials` and `registers` say whether the master can be dialled
-- and whether the callbacks can be registered.
use simple_twitter.Common.{
  ℕ, zero, suc, Bool, true, false, not, Option, none, some, List, [], Outcome, done, fatal, ◌>>=◌,
  ◌&&◌, if◌then◌else◌,
}
use simple_twitter.Common.Order.{Bytes, bytes_eqb}
use simple_twitter.Common.Order.{nat_order}
use simple_twitter.Ring.{Node, empty_ring, add_nodes}
use simple_twitter.StorageServer.Proto.{ServersReply, ok}
use simple_twitter.Libstore.State.{
  LeaseMode, never, normal, always, Libstore, Result, call_failed, not_ready_in_time,
}
use simple_twitter.Libstore.State

-- Five attempts; `left` counts those that are left.
unfoldable pub wait_ready : (ℕ → Option ServersReply) → ℕ → ℕ → Outcome (Option (List Node))
wait_ready reply re zero = done none
wait_ready reply re (suc left) = elim (reply re) [
  | none ↦ fatal
  | some r ↦ elim r.status [ ok ↦ done (some r.servers) | _ ↦ wait_ready reply (suc re) left ]
]

abbrev pub attempts : ℕ
attempts = 5

-- `mode != Never`
abbrev pub may_lease : LeaseMode → Bool
may_lease never = false
may_lease _ = true

unfoldable pub new_libstore :
    (dials registers : Bool)
    → (ℕ → Option ServersReply)
    → Bytes
    → LeaseMode
    → Outcome (Result Libstore)
unfolding wait_ready
new_libstore dials registers reply host_port mode =
    if not dials
    then done (State.err call_failed)
    else wait_ready reply 0 attempts >>= λ ready. elim ready [
      | none ↦ done (State.err not_ready_in_time)
      | some servers ↦ add_nodes empty_ring servers >>= λ members.
          if may_lease mode && not (bytes_eqb host_port []) && not registers
          then done (State.err call_failed)
          else done (
              State.ok (record {
                host_port = host_port;
                mode = mode;
                members = members;
                conns = [];
                cache = [];
                records = [];
                heap = [];
              }))
    ]
