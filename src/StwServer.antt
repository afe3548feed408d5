-- ===== src/StwServer.antt =====
-- src/stwserver/stwserver_impl.go: the application server.
pub mod Membership
pub mod Join
pub mod Store
pub mod Users
pub mod Posts
pub mod Timelines
pub mod Dispatch
