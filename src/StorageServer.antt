-- ===== src/StorageServer.antt =====
-- src/storageserver/storageserver_impl.go: the handlers of the storage server. Each runs under the
-- server's lock, so a handler is one step.
pub mod Proto
pub mod State
pub mod Leases
pub mod Handlers
pub mod Invariant
pub mod Effects
pub mod Refinement
pub mod Reads
pub mod Service
pub mod Stale
pub mod Membership
