-- ===== src/WebrtcPool/Create.antt =====
-- src/webrtc_pool.rs: the factory with the least count makes the next peer connection.
use load_test_server.Prelude.{
  ℕ, ◌+◌, ◌%◌, ◌^◌, String, Option, none, some, List, [], ◌∷◌, ltb, if◌then◌else◌,
}
use load_test_server.Result.{Exec, Held, or_raise, on_world, ◌>>=◌}
use load_test_server.Error.{ServerError, server_error_from}
use load_test_server.WebrtcPool.{WebrtcPool, WebrtcPoolItem}
use load_test_server.PeerConnection
use load_test_server.PeerConnection.{PeerConnectionManager}
use load_test_server.External.Platform.{Platform}

module _ ⦃P : Platform⦄ where
  open P use {World, by_id, unexpected_error}
  open by_id use {Map, insert, entries}

  -- `min_by` on the counts: of several least entries, the first
  unfoldable pub lesser : ℕ × WebrtcPoolItem → ℕ × WebrtcPoolItem → ℕ × WebrtcPoolItem
  lesser x y = if ltb y.1.count x.1.count then y else x

  unfoldable pub least_from : ℕ × WebrtcPoolItem → List (ℕ × WebrtcPoolItem) → ℕ × WebrtcPoolItem
  least_from x [] = x
  least_from x (y ∷ ys) = least_from (lesser x y) ys

  unfoldable pub min_by_count : List (ℕ × WebrtcPoolItem) → Option (ℕ × WebrtcPoolItem)
  unfolding least_from lesser
  min_by_count [] = none
  min_by_count (x ∷ xs) = some (least_from x xs)

  -- `count.fetch_add(1)` on an AtomicUsize, which wraps
  unfoldable pub fetch_add : ℕ × WebrtcPoolItem → WebrtcPool → WebrtcPool
  fetch_add (pool_id, item) pool = record pool {
    factory_list =
        insert pool.factory_list pool_id (record item { count = (item.count + 1) % 2 ^ 64 });
  }

  unfoldable pub create_peer_connection_manager :
      String → String → Exec (Held WebrtcPool World) ServerError PeerConnectionManager
  unfolding server_error_from min_by_count fetch_add
  create_peer_connection_manager id name s =
      (do
        item ←
            or_raise (min_by_count (entries s.item.factory_list))
              (server_error_from (unexpected_error "No peer connection factories"))
        λ t.
            on_world (PeerConnection.new item.1.peer_connection_factory item.0 id name)
              (record t { item = fetch_add item t.item }))
        s
