-- ===== src/StorageServer/Proto.antt =====
-- src/rpc/storagerpc/proto.go: the arguments and replies of the calls between the application
-- servers and the storage servers. A reply's fields are zero until a handler sets them.
use simple_twitter.Common.{ℕ, Bool, false, true, List}
use simple_twitter.Common.Order.{Bytes}
use simple_twitter.Ring.{Node}

-- `unset` is the zero value, which no constant of the source names.
pub data Status : Type 0 where
  unset ok key_not_found item_not_found wrong_server item_exists not_ready : Status

abbrev pub query_cache_seconds : ℕ
query_cache_seconds = 10

abbrev pub query_cache_thresh : ℕ
query_cache_thresh = 3

abbrev pub lease_seconds : ℕ
lease_seconds = 10

abbrev pub lease_guard_seconds : ℕ
lease_guard_seconds = 2

pub record Lease : Type 0 where
  pub granted : Bool
  pub valid_seconds : ℕ

abbrev pub no_lease : Lease
no_lease = record { granted = false; valid_seconds = 0 }

-- `storagerpc.Lease{true, storagerpc.LeaseSeconds}`
abbrev pub full_lease : Lease
full_lease = record { granted = true; valid_seconds = lease_seconds }

-- `RegisterReply` and `GetServersReply` have the same fields.
pub record ServersReply : Type 0 where
  pub status : Status
  pub servers : List Node

pub record GetArgs : Type 0 where
  pub key : Bytes
  pub want_lease : Bool
  pub host_port : Bytes

pub record GetReply : Type 0 where
  pub status : Status
  pub value : Bytes
  pub lease : Lease

pub record GetListReply : Type 0 where
  pub status : Status
  pub value : List Bytes
  pub lease : Lease

pub record PutArgs : Type 0 where
  pub key : Bytes
  pub value : Bytes
