-- ===== src/WebrtcPool/Fresh.antt =====
-- src/webrtc_pool.rs: new pools.
use load_test_server.Prelude.{
  ℕ, zero, suc, ==_refl, dec_lt, ◌+◌, ◌%◌, ◌^◌, ◌≤◌, ◌<◌, ◌≡◌, ◌∙◌, subst, Option, none, some,
  arith,
}
use load_test_server.Result.{ok, >>=-eq-ok, map_err, pure}
use load_test_server.WebrtcPool.{WebrtcPool, WebrtcPoolItem, new_item, new_items, fill, new}
use load_test_server.WebrtcPool.Balance.{IsBalanced}
use load_test_server.Error.{server_error_from}
use load_test_server.External.Maps.{get-insert_id}
use load_test_server.External.Platform.{Platform}

module _ ⦃P : Platform⦄ where
  open P use {World, by_id, VideoEncoderPool, VideoEncoderPoolTx, video_encoder_pool_create}
  open by_id use {Map, get, insert, empty, get-empty}

  -- an unused factory under its own id
  abbrev pub IsUnused : ℕ → Option WebrtcPoolItem → Type 0
  IsUnused j none = ⊥
  IsUnused j (some item) = (item.id ≡ j) × (item.count ≡ 0)

  -- the factories from `id` on have been added to the first pool
  record Added (id rounds : ℕ) (before after : Map WebrtcPoolItem) : Type 0 where
    inside : (j : ℕ) → id ≤ j → j < id + rounds → IsUnused j (get after j)
    below : (j : ℕ) → j < id → get after j ≡ get before j
    above : (j : ℕ) → id + rounds ≤ j → get after j ≡ get before j

  new_item_unused :
      (tx : VideoEncoderPoolTx) (id : ℕ) (w : World) (item : WebrtcPoolItem)
      → (new_item tx id w).0 ≡ ok item
      → (item.id ≡ id) × (item.count ≡ 0)
  unfolding new_item
  new_item_unused tx id w item h = ground arith

  Added-step :
      (rounds id : ℕ) (m m' : Map WebrtcPoolItem) (item : WebrtcPoolItem)
      → (item.id ≡ id) × (item.count ≡ 0)
      → Added (suc id) rounds (insert m id item) m'
      → Added id (suc rounds) m m'
  Added-step rounds id m m' item u a = record {
    inside = λ j p q. elim (dec_lt id j) [
      | yes later ↦ a.inside j later (omega arith)
      | no same ↦
          let e : id ≡ j = omega arith in
          subst (λ k. IsUnused k (get m' k)) e
            (rw (a.below id (omega arith), get-insert_id by_id m id id item, ==_refl) u)
    ];
    below = λ j p. ground (arith, a.below j, get-insert_id by_id m id j item);
    above = λ j p. ground (arith, a.above j, get-insert_id by_id m id j item);
  }

  new_items-Added :
      (tx : VideoEncoderPoolTx) (rounds id : ℕ) (m m' : Map WebrtcPoolItem) (w : World)
      → (new_items tx rounds id m w).0 ≡ ok m'
      → Added id rounds m m'
  unfolding new_items
  new_items-Added tx zero id m m' w h = record {
    inside = λ j p q. absurd (omega arith);
    below = λ j p. ground arith;
    above = λ j p. ground arith;
  }
  new_items-Added tx (suc rounds) id m m' w h =
      let (item, made, rest) =
        >>=-eq-ok (new_item tx id) (λ item. new_items tx rounds (suc id) (insert m id item)) w h in
      Added-step rounds id m m' item (new_item_unused tx id w item made)
        (new_items-Added tx rounds (suc id) (insert m id item) m' (new_item tx id w).1 rest)

  -- the factories 0 to n - 1, each under its own id and unused, and no others
  pub record IsFresh (n : ℕ) (pool : WebrtcPool) : Type 0 where
    pub unused : (j : ℕ) → j < n → IsUnused j (get pool.factory_list j)
    pub others : (j : ℕ) → n ≤ j → get pool.factory_list j ≡ none

  IsUnused-count : (j : ℕ) (x : WebrtcPoolItem) → IsUnused j (some x) → x.count ≡ 0
  IsUnused-count j x u = u.1

  pub IsFresh-count :
      {n : ℕ} {pool : WebrtcPool}
      → IsFresh n pool
      → (j : ℕ) (x : WebrtcPoolItem) → get pool.factory_list j ≡ some x
      → x.count ≡ 0
  IsFresh-count {n} {pool} f j x found = elim (dec_lt j n) [
    | yes less ↦ IsUnused-count j x (rw found at (f.unused j less))
    | no more ↦ cc (f.others j (omega arith))
  ]

  IsFresh-IsBalanced : {n : ℕ} {pool : WebrtcPool} → IsFresh n pool → IsBalanced pool
  IsFresh-IsBalanced f = record {
    even = λ i j x y p q. omega (arith, IsFresh-count f i x p, IsFresh-count f j y q);
  }

  Added-IsFresh : (n : ℕ) (pool : WebrtcPool) → Added 0 n empty pool.factory_list → IsFresh n pool
  Added-IsFresh n pool a = record {
    unused = λ j h. a.inside j (omega arith) (omega arith);
    others = λ j h. a.above j (omega arith) ∙ get-empty j;
  }

  fill-IsFresh :
      (n : ℕ) (created : VideoEncoderPool × VideoEncoderPoolTx) (w : World) (pool : WebrtcPool)
      → (fill n created w).0 ≡ ok pool
      → (pool.factory_count ≡ n) × IsFresh (n % 2 ^ 32) pool
  unfolding fill
  fill-IsFresh n (vep, tx) w pool h =
      let (m, made, rest) =
        >>=-eq-ok (new_items tx (n % 2 ^ 32) 0 empty)
          (λ m. pure (record { factory_count = n; factory_list = m; video_encoder_pool = vep })) w
          h in
      let a = new_items-Added tx (n % 2 ^ 32) 0 empty m w made in
      let e : pool.factory_list ≡ m = ground arith in
      (ground arith, Added-IsFresh (n % 2 ^ 32) pool (rw e a))

  -- A new pool holds the factories 0 to n - 1, with n the count that was asked for as a u32, each
  -- under its own id and unused, and no others; and it is balanced.
  pub new_pool :
      (factory_count : ℕ) (w : World) (pool : WebrtcPool)
      → (new factory_count w).0 ≡ ok pool
      → (pool.factory_count ≡ factory_count)
        × IsFresh (factory_count % 2 ^ 32) pool
        × IsBalanced pool
  unfolding new
  new_pool n w pool h =
      let (created, _, rest) =
        >>=-eq-ok (map_err server_error_from video_encoder_pool_create) (fill n) w h in
      let (count, fresh) = fill-IsFresh n created _ pool rest in
      (count, fresh, IsFresh-IsBalanced fresh)
