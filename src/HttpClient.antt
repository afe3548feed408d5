-- ===== src/HttpClient.antt =====
-- src/httpclient/httpclient_impl.go: the client of the web server. `send` is what becomes of a request,
-- `none` where there is no response, and `Decoder` what Go's JSON decoder makes of a page.
pub mod Effects
pub mod Reaches
pub mod Stores
use simple_twitter.Common.{Bool, true, false, Option, none, some, [], ◌∷◌}
use simple_twitter.Common.Order.{Bytes}
use simple_twitter.Common.Map.{Map}
use simple_twitter.Text.{codes}
use simple_twitter.StwServer.Membership.{Status}
use simple_twitter.StwServer.Posts.{PostReply}
use simple_twitter.StwServer.Timelines.{TimelineReply}
use simple_twitter.StwServer.Dispatch.{PostArgs}
use simple_twitter.WebServer.State.{
  Method, get_method, post_method, delete_method, HttpRequest, Page, Response,
}
use simple_twitter.WebServer.Handlers.{user_id_param, target_user_id_param}

pub record Decoder : Type 0 where
  pub status : Page → Option Status
  pub post : Page → Option PostReply
  pub timeline : Page → Option TimelineReply

-- A request of a client at an address. The client keeps no cookies.
abbrev pub request : Bytes → Method → Bytes → HttpRequest
request addr method path = record {
  method = method;
  path = path;
  query = [];
  decoded = none;
  readable = true;
  remote_addr = addr;
  has_passcode = false;
}

-- A body in JSON with these fields; `contents` is empty where the struct has no such field.
abbrev pub with_body : Bytes → Bytes → HttpRequest → HttpRequest
with_body user_id contents r = record r {
  decoded = some (record { user_id = user_id; contents = contents });
}

abbrev pub with_user : Bytes → HttpRequest → HttpRequest
with_user user_id r = record r { query = (user_id_param, user_id ∷ []) ∷ [] }

unfoldable pub users_request : Bytes → Bytes → HttpRequest
users_request addr user_id = with_body user_id [] (request addr post_method (codes "/users"))

unfoldable pub subscription_request : Bytes → Method → Bytes → Bytes → HttpRequest
subscription_request addr method user_id target_id =
    record (request addr method (codes "/subscriptions")) {
      query = (user_id_param, user_id ∷ []) ∷ (target_user_id_param, target_id ∷ []) ∷ [];
    }

unfoldable pub timeline_request : Bytes → Bytes → HttpRequest
timeline_request addr user_id = with_user user_id (request addr get_method (codes "/timeline"))

unfoldable pub home_request : Bytes → Bytes → HttpRequest
home_request addr user_id = with_user user_id (request addr get_method (codes "/home"))

unfoldable pub post_request : Bytes → Bytes → Bytes → HttpRequest
post_request addr user_id contents =
    with_body user_id contents (request addr post_method (codes "/posts"))

-- `UserID` and `PostKey` go into the body. What the server reads as `PostArgs` there has no `PostKey`.
unfoldable pub delete_post_request : Bytes → Bytes → Bytes → HttpRequest
delete_post_request addr user_id post_key =
    with_body user_id [] (request addr delete_method (codes "/posts"))

abbrev pub read_page {ℓ} : {A : Type ℓ} → (Page → Option A) → Option Response → Option A
read_page decode none = none
read_page decode (some response) = decode response.page

module _ {N : Type 0} (send : HttpRequest → N → Option Response × N) (decoder : Decoder)
    (addr : Bytes) where
  unfoldable pub create_user : Bytes → N → Option Status × N
  unfolding users_request
  create_user user_id n =
      let (response, n') = send (users_request addr user_id) n in
      (read_page decoder.status response, n')

  unfoldable pub do_sub : Method → Bytes → Bytes → N → Option Status × N
  unfolding subscription_request
  do_sub method user_id target_id n =
      let (response, n') = send (subscription_request addr method user_id target_id) n in
      (read_page decoder.status response, n')

  unfoldable pub subscribe : Bytes → Bytes → N → Option Status × N
  unfolding do_sub
  subscribe = do_sub post_method

  unfoldable pub unsubscribe : Bytes → Bytes → N → Option Status × N
  unfolding do_sub
  unsubscribe = do_sub delete_method

  unfoldable pub timeline : Bytes → N → Option TimelineReply × N
  unfolding timeline_request
  timeline user_id n =
      let (response, n') = send (timeline_request addr user_id) n in
      (read_page decoder.timeline response, n')

  unfoldable pub home_timeline : Bytes → N → Option TimelineReply × N
  unfolding home_request
  home_timeline user_id n =
      let (response, n') = send (home_request addr user_id) n in
      (read_page decoder.timeline response, n')

  unfoldable pub post : Bytes → Bytes → N → Option PostReply × N
  unfolding post_request
  post user_id contents n =
      let (response, n') = send (post_request addr user_id contents) n in
      (read_page decoder.post response, n')

  unfoldable pub delete_post : Bytes → Bytes → N → Option Status × N
  unfolding delete_post_request
  delete_post user_id post_key n =
      let (response, n') = send (delete_post_request addr user_id post_key) n in
      (read_page decoder.status response, n')
