-- ===== src/Tests/Runner.antt =====
-- The program on a store that is a map.
use simple_twitter.Common.{◌≡◌, some, [], ◌∷◌, not}
use simple_twitter.Common.Order.{Bytes, bytes_order}
use simple_twitter.Text.{codes}
use simple_twitter.Slices.{has}
use simple_twitter.StwServer.Store.{list_of, appended}
use simple_twitter.Runner.{run_main, result_line, times, error_line, run_main-appends}
use simple_twitter.Tests.Data.{list_key, bob}
use simple_twitter.Tests.StwServer.{at_key, map_ops, map_ops-IsStore, users}

run_main-appends_example :
    let (lines, s') = run_main map_ops 3 (codes "la" ∷ list_key ∷ bob ∷ []) users in
    (lines
      ≡ some (result_line (not (has bob (list_of (at_key users list_key)))) ∷ times 2 error_line))
    × ((k : Bytes) → at_key s' k ≡ appended list_key bob (at_key users) k)
run_main-appends_example = run_main-appends map_ops at_key map_ops-IsStore 2 list_key bob users
