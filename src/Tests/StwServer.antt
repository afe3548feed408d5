-- ===== src/Tests/StwServer.antt =====
-- The application server over a store that is a map.
use simple_twitter.Common.{
  ◌≡◌, refl, true, not, List, [], ◌∷◌, ◌||◌, ◌&&◌, length, leb, if◌then◌else◌, arith, Returns,
}
use simple_twitter.Common.Order.{Bytes, bytes_eqb, bytes_order, bytes_ltb}
use simple_twitter.Common.Map.{Map, lookup, insert, delete, lookup-insert, lookup-delete}
use simple_twitter.Search.Sorted.{IsSorted}
use simple_twitter.Slices.{has, insert_sorted, remove}
use simple_twitter.Keys.{
  format_user_key, format_sub_list_key, format_post_key, format_post_list_key,
}
use simple_twitter.StwServer.Membership.{
  ok, exists, not_ready, no_such_target_user, no_such_user, register_peer, register_peer-Registers,
}
use simple_twitter.StwServer.Store.{
  is_stored, StoreOps, Contents, value_of, list_of, updated, appended, removed, IsStore,
}
use simple_twitter.Common.Int.{pos}
use simple_twitter.StwServer.Posts.{post, post-Posts}
use simple_twitter.StwServer.Users.{
  subscribe, unsubscribe, is_user, reply_of, follows, subscribe-Subscribes,
  unsubscribe-Unsubscribes,
}
use simple_twitter.Tests.Data.{amy, bob, zoe}

abbrev pub Store : Type 0
Store = Map Bytes (List Bytes)

abbrev pub at_key : Store → Contents
at_key s k = lookup k s

abbrev pub map_ops : StoreOps Store
map_ops = record {
  get = λ key s. (value_of (lookup key s), s);
  put = λ key v s. (true, insert key (v ∷ []) s);
  delete = λ key s. (is_stored (lookup key s), delete key s);
  get_list = λ key s. (lookup key s, s);
  append_to_list = λ key v s. (
    not (has v (list_of (lookup key s))),
    (if has v (list_of (lookup key s))
        then s
        else insert key (insert_sorted v (list_of (lookup key s))) s),
  );
  remove_from_list = λ key v s. (
    has v (list_of (lookup key s)),
    (if has v (list_of (lookup key s))
        then insert key (remove v (list_of (lookup key s))) s
        else s),
  );
}

pub map_ops-IsStore : IsStore map_ops at_key
map_ops-IsStore = record {
  gets = λ key s. refl;
  get_keeps = λ key s k. refl;
  put_works = λ key v s. refl;
  puts = λ key v s k. lookup-insert key k (v ∷ []) s;
  delete_reports = λ key s. refl;
  deletes = λ key s k. lookup-delete key k s;
  gets_list = λ key s. refl;
  get_list_keeps = λ key s k. refl;
  append_reports = λ key v s. refl;
  appends =
      λ key v s k. ground (arith, lookup-insert key k (insert_sorted v (list_of (lookup key s))) s);
  remove_reports = λ key v s. refl;
  removes = λ key v s k. ground (arith, lookup-insert key k (remove v (list_of (lookup key s))) s);
}

abbrev pub users : Store
users = insert (format_user_key amy) ([] ∷ []) (insert (format_user_key bob) ([] ∷ []) [])

subscribe-Subscribes_example :
    ((subscribe map_ops amy bob users).0
      ≡ reply_of map_ops at_key map_ops-IsStore users amy bob
          (if follows map_ops at_key map_ops-IsStore users amy bob then exists else ok))
    × (at_key (subscribe map_ops amy bob users).1 (format_sub_list_key amy) ≡ (
        if is_user map_ops at_key map_ops-IsStore users amy
          && is_user map_ops at_key map_ops-IsStore users bob
        then appended (format_sub_list_key amy) bob (at_key users) (format_sub_list_key amy)
        else at_key users (format_sub_list_key amy)))
subscribe-Subscribes_example =
    subscribe-Subscribes map_ops at_key map_ops-IsStore amy bob users (format_sub_list_key amy)

unsubscribe-Unsubscribes_example :
    ((unsubscribe map_ops amy bob users).0
      ≡ reply_of map_ops at_key map_ops-IsStore users amy bob (
          if follows map_ops at_key map_ops-IsStore users amy bob then ok else no_such_target_user))
    × (at_key (unsubscribe map_ops amy bob users).1 (format_sub_list_key amy) ≡ (
        if is_user map_ops at_key map_ops-IsStore users amy
          && is_user map_ops at_key map_ops-IsStore users bob
        then removed (format_sub_list_key amy) bob (at_key users) (format_sub_list_key amy)
        else at_key users (format_sub_list_key amy)))
unsubscribe-Unsubscribes_example =
    unsubscribe-Unsubscribes map_ops at_key map_ops-IsStore amy bob users (format_sub_list_key amy)

register_peer-Registers_example :
    Returns (register_peer zoe (record { nodes = amy ∷ bob ∷ []; num_nodes = 3 })) (λ (ts', reply).
      IsSorted ts'.nodes
      × ((other : Bytes)
          → has other ts'.nodes ≡ (bytes_eqb zoe other || has other (amy ∷ bob ∷ [])))
      × (ts'.num_nodes ≡ 3)
      × (reply ≡ (
          if leb 3 (length ts'.nodes)
          then record { status = ok; servers = ts'.nodes }
          else record { status = not_ready; servers = [] })))
unfolding bytes_ltb
register_peer-Registers_example =
    register_peer-Registers zoe (record { nodes = amy ∷ bob ∷ []; num_nodes = 3 })
      ((refl, tt), (tt, tt))

post-Posts_example :
    ((post map_ops amy bob (pos 1500) users).0 ≡ (
      if is_user map_ops at_key map_ops-IsStore users amy
      then record { status = ok; post_key = format_post_key amy (pos 1500) }
      else record { status = no_such_user; post_key = [] }))
    × (at_key (post map_ops amy bob (pos 1500) users).1 (format_post_list_key amy) ≡ (
        if is_user map_ops at_key map_ops-IsStore users amy
        then appended
            (format_post_list_key amy)
            (format_post_key amy (pos 1500))
            (updated (format_post_key amy (pos 1500)) (bob ∷ []) (at_key users))
            (format_post_list_key amy)
        else at_key users (format_post_list_key amy)))
post-Posts_example =
    post-Posts map_ops at_key map_ops-IsStore amy bob (pos 1500) users (format_post_list_key amy)
