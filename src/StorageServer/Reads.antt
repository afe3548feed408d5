-- ===== src/StorageServer/Reads.antt =====
-- `Get` and `GetList` on a key of the server's own.
use simple_twitter.Common.{
  ◌≡◌, refl, Bool, true, false, Option, some, none, List, [], arith, if◌then◌else◌, done, Returns,
  Bool-cases, inl, inr,
}
use simple_twitter.Common.Int.{IsInt64}
use simple_twitter.Common.Order.{Bytes, bytes_order}
use simple_twitter.Common.Map.{lookup}
use simple_twitter.Text.Split.{Lacks}
use simple_twitter.Slices.{has}
use simple_twitter.Lease.Records.{Grants, hosts}
use simple_twitter.StorageServer.Proto.{
  ok, key_not_found, no_lease, full_lease, Lease, GetArgs, GetReply, GetListReply,
}
use simple_twitter.StorageServer.State.{StorageServer, Env, key_range_contains}
use simple_twitter.StorageServer.Leases.Grants.{AreGrants, lent, record_lease-lent}
use simple_twitter.StorageServer.Handlers.{
  Answer, lend, first_value, get_own, get, get_list_own, get_list,
}
use simple_twitter.StorageServer.Invariant.{IsWellFormed, lent-IsWellFormed}

-- The server after a request for a key: a lease is recorded if it was wanted and the key is there.
abbrev pub after_read : Env → GetArgs → Grants → StorageServer → Option (List Bytes) → StorageServer
after_read env args grants ss none = ss
after_read env args grants ss (some vs) =
    if args.want_lease then lent env args.key args.host_port grants ss else ss

abbrev pub lease_of : GetArgs → Lease
lease_of args = if args.want_lease then full_lease else no_lease

abbrev pub get_reply : GetArgs → Option (List Bytes) → GetReply
get_reply args none = record { status = key_not_found; value = []; lease = no_lease }
get_reply args (some vs) = record { status = ok; value = first_value vs; lease = lease_of args }

abbrev pub get_list_reply : GetArgs → Option (List Bytes) → GetListReply
get_list_reply args none = record { status = key_not_found; value = []; lease = no_lease }
get_list_reply args (some vs) = record { status = ok; value = vs; lease = lease_of args }

-- The answer to a read: the reply, no change but that of the lease, and no calls.
pub record Reads {R : Type 0} (env : Env) (args : GetArgs) (grants : Grants) (ss : StorageServer)
    (old : Option (List Bytes)) (reply : R) (a : Answer R) : Type 0 where
  pub replied : a.reply ≡ reply
  pub server : a.server ≡ after_read env args grants ss old
  pub calls : a.calls ≡ []
  pub well_formed : IsWellFormed a.server
  pub storage : a.server.storage ≡ ss.storage
  pub members : a.server.members ≡ ss.members
  pub node_id : a.server.node_id ≡ ss.node_id

module _ (env : Env) (args : GetArgs) (ss : StorageServer) (grants : Grants) (w : IsWellFormed ss)
    (g : AreGrants ss args.key grants) (host : Lacks b'~' args.host_port)
    (now : IsInt64 (env.clock 0)) (own : key_range_contains ss args.key ≡ done true) where
  lend-lent :
      lend env args ss
      ≡ done (if args.want_lease then lent env args.key args.host_port grants ss else ss)
  unfolding lend
  lend-lent = ground (arith, record_lease-lent env args.key args.host_port ss grants g host now)

  answer-Reads :
      {R : Type 0} (reply : R) (vs : List Bytes) (b : Bool)
      → args.want_lease ≡ b
      → Reads env args grants ss (some vs) reply (record {
        server = if b then lent env args.key args.host_port grants ss else ss;
        reply = reply;
        calls = [];
      })
  answer-Reads reply vs false e = record {
    replied = refl;
    server = rw e;
    calls = refl;
    well_formed = w;
    storage = refl;
    members = refl;
    node_id = refl;
  }
  answer-Reads reply vs true e = elim (Bool-cases (has args.host_port (hosts grants))) [
    | inl old ↦ record {
      replied = refl;
      server = rw e;
      calls = refl;
      well_formed = lent-IsWellFormed env args.key args.host_port grants ss g host now w;
      storage = rw old;
      members = rw old;
      node_id = rw old;
    }
    | inr new ↦ record {
      replied = refl;
      server = rw e;
      calls = refl;
      well_formed = lent-IsWellFormed env args.key args.host_port grants ss g host now w;
      storage = rw new;
      members = rw new;
      node_id = rw new;
    }
  ]

  no_answer :
      {R : Type 0} (reply : R)
      → Reads env args grants ss none reply (record { server = ss; reply = reply; calls = [] })
  no_answer reply = record {
    replied = refl;
    server = refl;
    calls = refl;
    well_formed = w;
    storage = refl;
    members = refl;
    node_id = refl;
  }

  get_own-Reads :
      (old : Option (List Bytes))
      → Returns (get_own env args ss old) (Reads env args grants ss old (get_reply args old))
  unfolding get_own
  get_own-Reads none = no_answer _
  get_own-Reads (some vs) =
      rw lend-lent (answer-Reads (get_reply args (some vs)) vs args.want_lease refl)

  get_list_own-Reads :
      (old : Option (List Bytes))
      → Returns
          (get_list_own env args ss old)
          (Reads env args grants ss old (get_list_reply args old))
  unfolding get_list_own
  get_list_own-Reads none = no_answer _
  get_list_own-Reads (some vs) =
      rw lend-lent (answer-Reads (get_list_reply args (some vs)) vs args.want_lease refl)

  -- On an own key of a well-formed server `Get` returns and replies with the first value of the key,
  -- or with the empty string if its list is empty, or that there is no such key; the reply grants a
  -- lease exactly if one was wanted and the key is there, and the state changes by the record of
  -- that lease alone. The callback address holds no tilde, and the clock fits in 64 bits.
  pub get-Reads : Returns (get env args ss) (
      Reads env args grants ss
        (lookup args.key ss.storage)
        (get_reply args (lookup args.key ss.storage)))
  unfolding get
  get-Reads = rw own (get_own-Reads (lookup args.key ss.storage))

  -- On an own key of a well-formed server `GetList` returns and replies with the whole list of the
  -- key, or that there is no such key; the reply grants a lease exactly if one was wanted and the key
  -- is there, and the state changes by the record of that lease alone. The callback address holds no
  -- tilde, and the clock fits in 64 bits.
  pub get_list-Reads : Returns (get_list env args ss) (
      Reads env args grants ss
        (lookup args.key ss.storage)
        (get_list_reply args (lookup args.key ss.storage)))
  unfolding get_list
  get_list-Reads = rw own (get_list_own-Reads (lookup args.key ss.storage))
