-- ===== src/WebrtcPool/Concurrent.antt =====
-- src/webrtc_pool.rs: calls of create_peer_connection_manager on several threads. A call reads the
-- counts and chooses a factory, and adds to that factory's count later; other calls may come between.
-- It never awaits, so there are at most as many calls under way as there are threads. The reads of one
-- choice are one step.
pub mod Apart
use load_test_server.Prelude.{
  ℕ, zero, suc, ◌+◌, ◌-◌, ◌%◌, ◌^◌, ◌≤◌, ◌<◌, ◌≡◌, refl, subst, inl, inr, true, false, Option, none,
  some, List, [], ◌∷◌, length, arith, ltb, ◌==◌, ==_iff, if◌then◌else◌, Option-cases, Bool-cases,
}
use load_test_server.Result.{ok}
use load_test_server.WebrtcPool.{WebrtcPool, WebrtcPoolItem, new}
use load_test_server.WebrtcPool.Create.{min_by_count, fetch_add}
use load_test_server.WebrtcPool.Balance.{IsLeast, min_by_count_cases, raised, get-fetch_add}
use load_test_server.WebrtcPool.Fresh.{new_pool, IsFresh-count}
use load_test_server.WebrtcPool.Spread.{IsBounded}
use load_test_server.External.Platform.{Platform}

-- how many calls under way have chosen a factory
abbrev pub pending : ℕ → List ℕ → ℕ
pending j [] = 0
pending j (k ∷ ks) = (if k == j then 1 else 0) + pending j ks

abbrev pub without : ℕ → List ℕ → List ℕ
without k [] = []
without k (j ∷ js) = let rest = without k js in if k == j then js else j ∷ rest

-- a thread chooses, or a call that has chosen a factory adds to its count
pub data Progress : Type 0 where
  choose : Progress
  add : ℕ → Progress

module _ ⦃P : Platform⦄ where
  open P use {World, by_id}
  open by_id use {get, entries}

  -- the factories that the calls under way have chosen
  pub record Calls : Type 0 where
    pub pool : WebrtcPool
    pub chosen : List ℕ

  unfoldable pub choose_least : Calls → Calls
  choose_least s = elim (min_by_count (entries s.pool.factory_list)) [
    | none ↦ s
    | some e ↦ record s { chosen = e.0 ∷ s.chosen }
  ]

  -- the count that is there when the call adds
  unfoldable pub add_one : ℕ → WebrtcPool → WebrtcPool
  unfolding fetch_add
  add_one k pool = elim (get pool.factory_list k) [
    | none ↦ pool
    | some item ↦ fetch_add (k, item) pool
  ]

  unfoldable pub progress : ℕ → Progress → Calls → Calls
  unfolding choose_least add_one
  progress threads choose s = if ltb (length s.chosen) threads then choose_least s else s
  progress threads (add k) s =
      if ltb 0 (pending k s.chosen)
      then record { pool = add_one k s.pool; chosen = without k s.chosen }
      else s

  unfoldable pub progress_all : ℕ → List Progress → Calls → Calls
  progress_all threads [] s = s
  progress_all threads (e ∷ es) s = progress_all threads es (progress threads e s)
