-- ===== src/WebrtcPool/Spread.antt =====
-- src/webrtc_pool.rs: the counts of a pool over many calls.
use load_test_server.Prelude.{
  ℕ, suc, ◌+◌, ◌^◌, ◌≤◌, ◌<◌, ◌≡◌, inl, inr, String, some, List, [], ◌∷◌, length, arith,
}
use load_test_server.Result.{Held, ok}
use load_test_server.WebrtcPool.{WebrtcPool, WebrtcPoolItem, new}
use load_test_server.WebrtcPool.Create.{fetch_add, create_peer_connection_manager}
use load_test_server.WebrtcPool.Balance.{
  IsLeast, IsBalanced, raised, get-fetch_add, create_cases, create-IsBalanced,
}
use load_test_server.WebrtcPool.Fresh.{new_pool, IsFresh-count}
use load_test_server.External.Platform.{Platform}

module _ ⦃P : Platform⦄ where
  open P use {World, by_id}
  open by_id use {get}

  -- one call for each id and name, whatever the calls return
  abbrev pub create_all : List (String × String) → Held WebrtcPool World → Held WebrtcPool World
  create_all [] s = s
  create_all ((id, name) ∷ rest) s = create_all rest (create_peer_connection_manager id name s).1

  pub record IsBounded (bound : ℕ) (pool : WebrtcPool) : Type 0 where
    pub at_most : (j : ℕ) (x : WebrtcPoolItem) → get pool.factory_list j ≡ some x → x.count ≤ bound

  fetch_add-IsBounded :
      (bound : ℕ) (e : ℕ × WebrtcPoolItem) (pool : WebrtcPool)
      → IsLeast pool e
      → IsBounded bound pool
      → IsBounded (suc bound) (fetch_add e pool)
  unfolding raised
  fetch_add-IsBounded bound e pool l b = record {
    at_most =
        λ j x p. ground (arith, get-fetch_add e pool j, b.at_most e.0 e.1 l.present, b.at_most j x);
  }

  pub create-IsBounded :
      (bound : ℕ) (id name : String) (s : Held WebrtcPool World)
      → IsBounded bound s.item
      → IsBounded (suc bound) (create_peer_connection_manager id name s).1.item
  create-IsBounded bound id name s b = elim (create_cases id name s) [
    | inl (nothing, e) ↦ rw e (record { at_most = λ j x p. omega (arith, b.at_most j x p) })
    | inr (x, least, e) ↦ rw e (fetch_add-IsBounded bound x s.item least b)
  ]

  create_all-IsBalanced :
      (calls : List (String × String)) (bound : ℕ) (s : Held WebrtcPool World)
      → bound + length calls < 2 ^ 64
      → IsBounded bound s.item
      → IsBalanced s.item
      → IsBalanced (create_all calls s).item
  create_all-IsBalanced [] bound s room b even = even
  create_all-IsBalanced ((id, name) ∷ rest) bound s room b even =
      create_all-IsBalanced rest (suc bound) _ (omega arith) (create-IsBounded bound id name s b) (
        create-IsBalanced id name s (record { room = λ i x p. omega (arith, b.at_most i x p) })
          even)

  -- From a new pool, fewer than 2 ^ 64 calls, successful or not and in whatever state the world is,
  -- leave the counts of any two factories at most one apart.
  pub new-create_all-IsBalanced :
      (factory_count : ℕ) (w w' : World) (pool : WebrtcPool) (calls : List (String × String))
      → (new factory_count w).0 ≡ ok pool
      → length calls < 2 ^ 64
      → IsBalanced (create_all calls (record { item = pool; world = w' })).item
  new-create_all-IsBalanced n w w' pool calls h room =
      let (count, fresh, even) = new_pool n w pool h in
      create_all-IsBalanced calls 0 _ (omega arith)
        (record { at_most = λ j x p. omega (arith, IsFresh-count fresh j x p) }) even
