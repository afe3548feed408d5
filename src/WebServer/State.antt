-- ===== src/WebServer/State.antt =====
-- src/webserver/webserver_impl.go and src/rpc/stwrpc/proto.go: the state of a web server, HTTP requests
-- and responses as far as the handlers look at them, and the calls of the application servers. Go's
-- JSON and HTTP packages, the Bloom filter and float64 are not part of the program: what it uses of
-- them are parameters.
use simple_twitter.Common.{ℕ, Bool, false, Option, List}
use simple_twitter.Common.Order.{Bytes, bytes_order}
use simple_twitter.Common.Map.{Map}
use simple_twitter.StorageServer.State.{Client}
use simple_twitter.StwServer.Dispatch.{PostArgs, AppReply}

pub data Method : Type 0 where
  get_method post_method delete_method other_method : Method

-- `decoded` is what the JSON decoder makes of the body, `readable` whether the body can be read.
pub record HttpRequest : Type 0 where
  pub method : Method
  pub path : Bytes
  pub query : Map Bytes (List Bytes)
  pub decoded : Option PostArgs
  pub readable : Bool
  pub remote_addr : Bytes
  pub has_passcode : Bool

-- What is written: nothing, the request's own body, an error text, a reply in JSON, the puzzle, or a
-- file of the client.
pub data Page : Type 0 where
  empty_page echoed error_text puzzle file : Page
  encoded : AppReply → Page

pub record Response : Type 0 where
  pub code : ℕ
  pub page : Page
  pub sets_passcode : Bool

abbrev pub respond : ℕ → Page → Response
respond code page = record { code = code; page = page; sets_passcode = false }

abbrev pub status_ok : ℕ
status_ok = 200

abbrev pub bad_request : ℕ
bad_request = 400

abbrev pub internal_server_error : ℕ
internal_server_error = 500

-- The Bloom filter.
pub record Filter (F : Type 0) : Type 0 where
  pub add : Bytes → F → F
  pub remove : Bytes → F → F
  pub test : Bytes → F → Bool

-- The mean latency: `0.9*avg + 0.1*delta`, and whether it is 20 milliseconds or more.
pub record Latency (L : Type 0) : Type 0 where
  pub blend : L → ℕ → L
  pub is_high : L → Bool

pub record WebServer (F L : Type 0) : Type 0 where
  pub stw_servers : List Bytes
  pub stw_conns : Map Bytes Client
  pub zombie_filter : F
  pub under_high_load : Bool
  pub avg_latency : L
