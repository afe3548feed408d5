-- ===== src/WebServer.antt =====
-- src/webserver/webserver_impl.go: the web server, which passes HTTP requests on to the application
-- servers, and asks visitors to solve a puzzle under high load.
pub mod State
pub mod Routing
pub mod Handlers
pub mod Gate
pub mod Holds
pub mod Answers
pub mod Serves
