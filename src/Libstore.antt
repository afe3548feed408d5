-- ===== src/Libstore.antt =====
-- src/libstore/libstore_impl.go: the client of the storage ring, with a cache of leased values.

pub mod State
pub mod Cache
pub mod Requests
pub mod Heap
pub mod Coherence
pub mod Later
pub mod Keeps
pub mod Events
pub mod Session
pub mod Policy
pub mod Revocation
pub mod Extended
pub mod Writes
pub mod Setup
pub mod Routing
pub mod Answers
pub mod Values
pub mod Ready
pub mod Ends
