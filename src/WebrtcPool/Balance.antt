-- ===== src/WebrtcPool/Balance.antt =====
-- src/webrtc_pool.rs: the counts of a pool over one call.
use load_test_server.Prelude.{
  ℕ, ◌+◌, ◌%◌, ◌^◌, ◌≤◌, ◌<◌, ◌≡◌, refl, ◌∙◌, ◌⊎◌, inl, inr, String, none, some, List, [], ◌∷◌,
  Memᴰ, All, arith, ◌==◌, if◌then◌else◌, All-mem,
}
use load_test_server.Result.{Held, err}
use load_test_server.Error.{server_error_from}
use load_test_server.WebrtcPool.{WebrtcPool, WebrtcPoolItem}
use load_test_server.WebrtcPool.Create.{
  lesser, least_from, min_by_count, fetch_add, create_peer_connection_manager,
}
use load_test_server.PeerConnection
use load_test_server.External.Maps.{get-insert_id, get_of_mem, get_of_no_entries}
use load_test_server.External.Platform.{Platform}

module _ ⦃P : Platform⦄ where
  open P use {World, by_id, unexpected_error}
  open by_id use {Map, get, insert, entries, mem-entries}

  abbrev AtMost : ℕ × WebrtcPoolItem → ℕ × WebrtcPoolItem → Type 0
  AtMost x y = x.1.count ≤ y.1.count

  lesser-AtMost : (x y : ℕ × WebrtcPoolItem) → AtMost (lesser x y) x × AtMost (lesser x y) y
  unfolding lesser
  lesser-AtMost x y = ground arith

  lesser_cases : (x y : ℕ × WebrtcPoolItem) → (lesser x y ≡ x) ⊎ (lesser x y ≡ y)
  unfolding lesser
  lesser_cases x y = ground arith

  least_from-AtMost :
      (x : ℕ × WebrtcPoolItem) (ys : List (ℕ × WebrtcPoolItem))
      → All (AtMost (least_from x ys)) (x ∷ ys)
  unfolding least_from
  least_from-AtMost x [] = (omega arith, tt)
  least_from-AtMost x (y ∷ ys) =
      let (le, all) = least_from-AtMost (lesser x y) ys in
      let (le_x, le_y) = lesser-AtMost x y in (omega arith, (omega arith, all))

  mem-least_from :
      (x : ℕ × WebrtcPoolItem) (ys : List (ℕ × WebrtcPoolItem)) → Memᴰ (least_from x ys) (x ∷ ys)
  unfolding least_from
  mem-least_from x [] = Memᴰ.head refl
  mem-least_from x (y ∷ ys) = mem-step (lesser_cases x y) (mem-least_from (lesser x y) ys)
    where
      mem-step :
          {z : ℕ × WebrtcPoolItem}
          → (lesser x y ≡ x) ⊎ (lesser x y ≡ y)
          → Memᴰ z (lesser x y ∷ ys)
          → Memᴰ z (x ∷ y ∷ ys)
      mem-step (inl e) (Memᴰ.head h) = Memᴰ.head (h ∙ e)
      mem-step (inr e) (Memᴰ.head h) = Memᴰ.tail (Memᴰ.head (h ∙ e))
      mem-step c (Memᴰ.tail m) = Memᴰ.tail (Memᴰ.tail m)

  -- an entry of the pool that no other entry undercuts
  pub record IsLeast (pool : WebrtcPool) (e : ℕ × WebrtcPoolItem) : Type 0 where
    pub present : get pool.factory_list e.0 ≡ some e.1
    pub least :
        (j : ℕ) (y : WebrtcPoolItem) → get pool.factory_list j ≡ some y → e.1.count ≤ y.count

  pub min_by_count_cases :
      (pool : WebrtcPool) (l : List (ℕ × WebrtcPoolItem))
      → entries pool.factory_list ≡ l
      → ((l ≡ []) × (min_by_count l ≡ none))
        ⊎ ((e : ℕ × WebrtcPoolItem) × (min_by_count l ≡ some e) × IsLeast pool e)
  unfolding min_by_count
  min_by_count_cases pool [] h = inl (refl, refl)
  min_by_count_cases pool (x ∷ xs) h = inr (
    least_from x xs,
    refl,
    record {
      present = get_of_mem by_id pool.factory_list _ (rw h (mem-least_from x xs));
      least = λ j y found.
          All-mem (AtMost (least_from x xs)) {a = (j, y)}
            (rw h at (mem-entries pool.factory_list j y found)) (least_from-AtMost x xs);
    },
  )

  -- A call either finds no factory at all, fails, and changes nothing; or it takes an entry that has a
  -- least count among all, makes the connection with that entry's factory and id, and raises the
  -- entry's count by one, also if the connection cannot be made.
  pub create_cases :
      (id name : String) (s : Held WebrtcPool World)
      → (((j : ℕ) → get s.item.factory_list j ≡ none)
          × (create_peer_connection_manager id name s
              ≡ (err (server_error_from (unexpected_error "No peer connection factories")), s)))
        ⊎ ((e : ℕ × WebrtcPoolItem) × IsLeast s.item e
            × (create_peer_connection_manager id name s ≡ (
                let (r, w) = PeerConnection.new e.1.peer_connection_factory e.0 id name s.world in
                (r, record { item = fetch_add e s.item; world = w }))))
  unfolding create_peer_connection_manager server_error_from
  create_cases id name s = elim (min_by_count_cases s.item (entries s.item.factory_list) refl) [
    | inl (nothing, e) ↦ inl (
      get_of_no_entries by_id s.item.factory_list nothing,
      rw (e, create_peer_connection_manager),
    )
    | inr (x, e, least) ↦ inr (x, least, rw (e, create_peer_connection_manager))
  ]

  -- the counts of two factories differ by one at most
  pub record IsBalanced (pool : WebrtcPool) : Type 0 where
    pub even :
        (i j : ℕ) (x y : WebrtcPoolItem)
        → get pool.factory_list i ≡ some x
        → get pool.factory_list j ≡ some y
        → x.count ≤ y.count + 1

  -- no count is about to wrap
  pub record HasRoom (pool : WebrtcPool) : Type 0 where
    pub room :
        (i : ℕ) (x : WebrtcPoolItem) → get pool.factory_list i ≡ some x → x.count + 1 < 2 ^ 64

  unfoldable pub raised : ℕ × WebrtcPoolItem → WebrtcPoolItem
  raised e = record (e.1) { count = (e.1.count + 1) % 2 ^ 64 }

  pub get-fetch_add :
      (e : ℕ × WebrtcPoolItem) (pool : WebrtcPool) (j : ℕ)
      → get (fetch_add e pool).factory_list j
        ≡ (if e.0 == j then some (raised e) else get pool.factory_list j)
  unfolding fetch_add raised
  get-fetch_add e pool j = get-insert_id by_id pool.factory_list e.0 j _

  fetch_add-IsBalanced :
      (e : ℕ × WebrtcPoolItem) (pool : WebrtcPool)
      → IsLeast pool e
      → HasRoom pool
      → IsBalanced pool
      → IsBalanced (fetch_add e pool)
  unfolding raised
  fetch_add-IsBalanced e pool l h b = record {
    even = λ i j x y p q. ground (
      arith,
      get-fetch_add e pool i,
      get-fetch_add e pool j,
      l.present,
      l.least j y,
      b.even i j x y,
      b.even i e.0 x e.1,
      h.room e.0 e.1,
    );
  }

  -- Every call keeps the pool balanced, whether it succeeds or fails, as long as no count is about to
  -- wrap.
  pub create-IsBalanced :
      (id name : String) (s : Held WebrtcPool World)
      → HasRoom s.item
      → IsBalanced s.item
      → IsBalanced (create_peer_connection_manager id name s).1.item
  create-IsBalanced id name s h b = elim (create_cases id name s) [
    | inl (nothing, e) ↦ rw e b
    | inr (x, least, e) ↦ rw e (fetch_add-IsBalanced x s.item least h b)
  ]
