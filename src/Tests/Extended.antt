-- ===== src/Tests/Extended.antt =====
-- A lease that the libstore goes on using when it is over for the storage server.
use simple_twitter.Common.{◌≡◌, refl, true, some, List, [], ◌∷◌, All, Returns}
use simple_twitter.Common.Int.{pos, int_ltb, int_sub, int_add}
use simple_twitter.Common.Order.{bytes_order, bytes_eqb}
use simple_twitter.Common.Map.{lookup, insert}
use simple_twitter.StorageServer.Proto.{ok}
use simple_twitter.StorageServer.Handlers.{put}
use simple_twitter.Libstore.State.{normal, Record, Libstore, LibEnv}
use simple_twitter.Libstore.Cache.{cached}
use simple_twitter.Libstore.Coherence.{place_record}
use simple_twitter.Libstore.Ready.{fresh_libstore}
use simple_twitter.Libstore.Extended.{begin_queries, Holds, begin_queries-stale}
use simple_twitter.Tests.Data.{
  app_host, list_key, amy, bob, zoe, at, at-AllAnswer, leased, granted-AreGrants,
  leased-IsWellFormed, leased-Owns,
}
use simple_twitter.Tests.Libstore.{one_server, at_time}

abbrev lent : Record
lent = record { granted = true; valid_seconds = 10; history = pos 100 ∷ [] }

abbrev start : Libstore
start = fresh_libstore app_host normal one_server

abbrev holder : Libstore
holder = record (place_record list_key lent start) {
  cache = insert list_key (amy ∷ zoe ∷ []) start.cache;
}

holder-Holds : Holds list_key (amy ∷ zoe ∷ []) 10 (pos 100) holder
unfolding lookup insert bytes_eqb
holder-Holds = record {
  mode = refl;
  ref = 0;
  held = lent;
  at = refl;
  found = refl;
  granted = refl;
  seconds = refl;
  queried = refl;
  values_at = refl;
}

abbrev readings : List LibEnv
readings = at_time 108 ∷ at_time 117 ∷ at_time 126 ∷ []

begin_queries-stale_example :
    Returns
      (begin_queries list_key readings holder)
      (λ (ls', begun). All (λ b. b ≡ cached (amy ∷ zoe ∷ [])) begun)
    × Returns (put (at 120) (record { key = list_key; value = bob }) leased) (λ a.
      (a.reply ≡ ok) × (lookup list_key a.server.storage ≡ some (bob ∷ [])) × (a.calls ≡ []))
unfolding int_ltb int_sub int_add
begin_queries-stale_example =
    begin_queries-stale list_key bob (amy ∷ zoe ∷ []) 10 (pos 100) (pos 100) readings holder
      (at 120) leased holder-Holds (refl, (refl, (refl, tt))) leased-IsWellFormed granted-AreGrants
      (at-AllAnswer 120) (leased-Owns list_key) refl
