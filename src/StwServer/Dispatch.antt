-- ===== src/StwServer/Dispatch.antt =====
-- src/rpc/stwrpc/rpc.go: the application server as the web server and the clients call it. A handler
-- that returns an error makes the call fail, and `now` is the clock that Post reads.
use simple_twitter.Common.{Bool, true, Option, none, some, List, []}
use simple_twitter.Common.Int.{ℤ}
use simple_twitter.Common.Order.{Bytes}
use simple_twitter.StwServer.Store.{StoreOps}
use simple_twitter.StwServer.Users.{create_user, subscribe, unsubscribe}
use simple_twitter.StwServer.Posts.{PostReply, post, delete_post}
use simple_twitter.StwServer.Membership.{Status, unset}
use simple_twitter.StwServer.Timelines.{TimelineReply, timeline, home_timeline}

-- `stwrpc.PostArgs`
pub record PostArgs : Type 0 where
  pub user_id : Bytes
  pub contents : Bytes

pub data AppCall : Type 0 where
  create_user_call timeline_call home_timeline_call : Bytes → AppCall
  subscribe_call unsubscribe_call : Bytes → Bytes → AppCall
  post_call : PostArgs → AppCall
  delete_post_call : Bytes → Bytes → AppCall

pub data AppReply : Type 0 where
  status_reply : Status → AppReply
  post_replied : PostReply → AppReply
  timeline_replied : TimelineReply → AppReply

-- The reply that a caller declares, before the call fills it.
abbrev pub zero_reply : AppCall → AppReply
zero_reply (create_user_call user_id) = status_reply unset
zero_reply (timeline_call user_id) = timeline_replied (record { status = unset; posts = [] })
zero_reply (home_timeline_call user_id) = timeline_replied (record { status = unset; posts = [] })
zero_reply (subscribe_call user_id target_id) = status_reply unset
zero_reply (unsubscribe_call user_id target_id) = status_reply unset
zero_reply (post_call args) = post_replied (record { status = unset; post_key = [] })
zero_reply (delete_post_call user_id post_key) = status_reply unset

-- The application servers: what a call at an address answers, `none` for a failed call, and how it
-- changes them; and whether dialling an address succeeds.
pub record Apps (W : Type 0) : Type 0 where
  pub call : Bytes → AppCall → W → Option AppReply × W
  pub dials : Bytes → Bool

abbrev pub timeline_answer : Option TimelineReply → Option AppReply
timeline_answer none = none
timeline_answer (some reply) = some (timeline_replied reply)

module _ {S : Type 0} (ops : StoreOps S) (sort : List Bytes → List Bytes) (now : ℤ) where
  unfoldable pub dispatch : AppCall → S → Option AppReply × S
  dispatch (create_user_call user_id) s =
      let (status, s') = create_user ops user_id s in (some (status_reply status), s')
  dispatch (subscribe_call user_id target_id) s =
      let (status, s') = subscribe ops user_id target_id s in (some (status_reply status), s')
  dispatch (unsubscribe_call user_id target_id) s =
      let (status, s') = unsubscribe ops user_id target_id s in (some (status_reply status), s')
  dispatch (post_call args) s =
      let (reply, s') = post ops args.user_id args.contents now s in (some (post_replied reply), s')
  dispatch (delete_post_call user_id post_key) s =
      let (status, s') = delete_post ops user_id post_key s in (some (status_reply status), s')
  dispatch (timeline_call user_id) s =
      let (reply, s') = timeline ops sort user_id s in (timeline_answer reply, s')
  dispatch (home_timeline_call user_id) s =
      let (reply, s') = home_timeline ops sort user_id s in (timeline_answer reply, s')

  -- Any number of application servers over one store, all of them within reach.
  abbrev pub app_servers : Apps S
  app_servers = record { call = λ host. dispatch; dials = λ host. true }
