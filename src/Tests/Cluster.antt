-- ===== src/Tests/Cluster.antt =====
-- A libstore without leases in front of a ring of one storage server.
use simple_twitter.Common.{refl, arith}
use simple_twitter.Common.Order.{nat_order, bytes_order}
use simple_twitter.Common.Map.{lookup}
use simple_twitter.Text.{codes}
use simple_twitter.Slices.{has}
use simple_twitter.StorageServer.Membership.{new_server}
use simple_twitter.Libstore.State.{never, Libstore}
use simple_twitter.Libstore.Routing.{IsRouted}
use simple_twitter.Libstore.Ready.{fresh_libstore, fresh_libstore-IsCoherent}
use simple_twitter.StwServer.Store.{IsStore}
use simple_twitter.Cluster.Asks.{IsPlain}
use simple_twitter.Cluster.Running.{IsRunning, contents_of, formed-IsRunning}
use simple_twitter.Cluster.Implements.{Running, ring_ops, ring_ops-IsStore}
use simple_twitter.Tests.Data.{
  app_host, app_host-Lacks, at, at-IsFair, stocked, stocked-IsWellFormed,
}
use simple_twitter.Tests.Libstore.{one_server, at_time}

abbrev plain : Libstore
plain = fresh_libstore app_host never one_server

plain-IsRouted : IsRouted plain
unfolding has lookup
plain-IsRouted = record {
  sorted = (tt, tt);
  used = λ e. cc;
  named = λ id h. (codes "localhost:9000", ground arith);
  dialled = λ id cli e. absurd cc;
}

plain-IsPlain : IsPlain plain
plain-IsPlain = record {
  mode = refl;
  coherent = fresh_libstore-IsCoherent app_host never one_server;
  routed = plain-IsRouted;
}

-- The cluster runs.
pub running : IsRunning (record { libstore = plain; servers = λ a. stocked; count = 0 })
unfolding has lookup new_server
running =
    formed-IsRunning plain (λ a. stocked) plain-IsPlain app_host-Lacks
      (λ id a member e. (stocked-IsWellFormed, refl, ground arith))

abbrev pub one_server_ring : Running
one_server_ring = (record { libstore = plain; servers = λ a. stocked; count = 0 }, running)

ring_ops-IsStore_example :
    IsStore
      (ring_ops (λ n. at_time 100) (λ n. at 100) (λ n a. refl) (λ n. at-IsFair))
      (λ s. contents_of s.0)
ring_ops-IsStore_example =
    ring_ops-IsStore (λ n. at_time 100) (λ n. at 100) (λ n a. refl) (λ n. at-IsFair)
