-- ===== src/Tests/Pool.antt =====
-- Concrete pools.
use load_test_server.Prelude.{
  ◌+◌, some, length, ◌*◌, ◌≤◌, ℕ, ◌≡◌, refl, String, List, [], ◌∷◌, arith,
}
use load_test_server.Result.{Held, ok}
use load_test_server.WebrtcPool.{WebrtcPool, WebrtcPoolItem, new, new_items, fill, new_item}
use load_test_server.WebrtcPool.Create.{min_by_count, create_peer_connection_manager}
use load_test_server.WebrtcPool.Balance.{IsBalanced}
use load_test_server.WebrtcPool.Fresh.{IsFresh, new_pool}
use load_test_server.WebrtcPool.Total.{total, new-create_all-even}
use load_test_server.WebrtcPool.Spread.{create_all, new-create_all-IsBalanced}
use load_test_server.WebrtcPool.Concurrent.{Progress, choose, add, progress, progress_all, add_one}
use load_test_server.WebrtcPool.Concurrent.Apart.{progress_all-new}
use load_test_server.PeerConnection
use load_test_server.Tests.{toy}
open toy use {by_id, unexpected_error}
open by_id use {get}

abbrev item : ℕ → ℕ → WebrtcPoolItem
item id count = record { id = id; factory = 0; peer_connection_factory = 0; count = count }

abbrev two : WebrtcPool
two = record {
  factory_count = 2;
  factory_list = (0, item 0 0) ∷ (1, item 1 0) ∷ [];
  video_encoder_pool = 0;
}

new-two : (new 2 5).0 ≡ ok two
unfolding new new_items fill new_item
new-two = refl

three_calls : List (String × String)
three_calls = ("p", "P") ∷ ("q", "Q") ∷ ("r", "R") ∷ []

new_pool_example : (two.factory_count ≡ 2) × IsFresh 2 two × IsBalanced two
new_pool_example = new_pool 2 5 two new-two

new-create_all-IsBalanced_example :
    IsBalanced (create_all three_calls (record { item = two; world = 9 })).item
unfolding three_calls
new-create_all-IsBalanced_example =
    new-create_all-IsBalanced 2 5 9 two three_calls new-two (omega arith)

abbrev used : Held WebrtcPool ℕ
used = record { item = record two { factory_list = (0, item 0 4) ∷ (1, item 1 3) ∷ [] }; world = 9 }

-- the first of the two factories makes the first and the third
first_made :
    get (create_all three_calls (record { item = two; world = 9 })).item.factory_list 0
    ≡ some (item 0 2)
unfolding three_calls create_peer_connection_manager PeerConnection.new
first_made = refl

new-create_all-even_example :
    (total 2 (create_all three_calls (record { item = two; world = 9 })).item ≡ length three_calls)
    × (2 * 2 ≤ length three_calls + 2)
    × (length three_calls ≤ 2 * (2 + 1))
unfolding three_calls
new-create_all-even_example =
    new-create_all-even 2 5 9 two three_calls 0 (item 0 2) new-two (omega arith) (omega arith)
      first_made

-- two threads choose the same factory before either adds to its count
abbrev raced : List Progress
raced = choose ∷ choose ∷ add 0 ∷ add 0 ∷ []

abbrev after_race : WebrtcPool
after_race = (progress_all 2 raced (record { pool = two; chosen = [] })).pool

found_first : get after_race.factory_list 0 ≡ some (item 0 2)
unfolding progress_all progress add_one min_by_count
found_first = refl

found_second : get after_race.factory_list 1 ≡ some (item 1 0)
unfolding progress_all progress add_one min_by_count
found_second = refl

progress_all-new_example : (item 0 2).count ≤ (item 1 0).count + 2
progress_all-new_example =
    progress_all-new 2 2 5 two raced new-two (omega arith) 0 1 (item 0 2) (item 1 0) found_first
      found_second
