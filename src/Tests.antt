-- ===== src/Tests.antt =====
-- The theorems at concrete inputs, and runs of the model.
mod Data
mod Text
mod Ring
mod Storage
mod Libstore
mod StwServer
mod Sort
mod Timelines
mod Web
mod Startup
mod Extended
mod Cluster
mod Runner
