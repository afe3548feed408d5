-- ===== src/StwClient.antt =====
-- src/stwclient/stwclient_impl.go: the client of an application server. A method answers `none` where
-- it returns an error, and leaves the servers in a new state.
use simple_twitter.Common.{Option, none, some}
use simple_twitter.Common.Order.{Bytes}
use simple_twitter.StorageServer.State.{Client}
use simple_twitter.StwServer.Membership.{Status}
use simple_twitter.StwServer.Posts.{PostReply}
use simple_twitter.StwServer.Timelines.{TimelineReply}
use simple_twitter.StwServer.Dispatch.{
  AppCall, create_user_call, timeline_call, home_timeline_call, subscribe_call, unsubscribe_call,
  post_call, delete_post_call, AppReply, status_reply, post_replied, timeline_replied, Apps,
}

-- The reply is read as the type that the method declares.
abbrev pub as_status : Option AppReply → Option Status
as_status (some (status_reply status)) = some status
as_status _ = none

abbrev pub as_post : Option AppReply → Option PostReply
as_post (some (post_replied reply)) = some reply
as_post _ = none

abbrev pub as_timeline : Option AppReply → Option TimelineReply
as_timeline (some (timeline_replied reply)) = some reply
as_timeline _ = none

module _ {W : Type 0} (apps : Apps W) (cli : Client) where
  unfoldable pub call_status : AppCall → W → Option Status × W
  call_status call w = let (reply, w') = apps.call cli.address call w in (as_status reply, w')

  unfoldable pub call_timeline : AppCall → W → Option TimelineReply × W
  call_timeline call w = let (reply, w') = apps.call cli.address call w in (as_timeline reply, w')

  unfoldable pub create_user : Bytes → W → Option Status × W
  unfolding call_status
  create_user user_id = call_status (create_user_call user_id)

  unfoldable pub subscribe : Bytes → Bytes → W → Option Status × W
  unfolding call_status
  subscribe user_id target_id = call_status (subscribe_call user_id target_id)

  unfoldable pub unsubscribe : Bytes → Bytes → W → Option Status × W
  unfolding call_status
  unsubscribe user_id target_id = call_status (unsubscribe_call user_id target_id)

  unfoldable pub timeline : Bytes → W → Option TimelineReply × W
  unfolding call_timeline
  timeline user_id = call_timeline (timeline_call user_id)

  unfoldable pub home_timeline : Bytes → W → Option TimelineReply × W
  unfolding call_timeline
  home_timeline user_id = call_timeline (home_timeline_call user_id)

  unfoldable pub post : Bytes → Bytes → W → Option PostReply × W
  post user_id contents w =
      let call = post_call (record { user_id = user_id; contents = contents }) in
      let (reply, w') = apps.call cli.address call w in (as_post reply, w')

  unfoldable pub delete_post : Bytes → Bytes → W → Option Status × W
  unfolding call_status
  delete_post user_id post_key = call_status (delete_post_call user_id post_key)
