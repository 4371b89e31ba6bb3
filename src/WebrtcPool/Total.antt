-- ===== src/WebrtcPool/Total.antt =====
-- src/webrtc_pool.rs: the counts of a pool against the number of calls.
use load_test_server.Prelude.{
  ℕ, zero, suc, ◌+◌, ◌*◌, ◌%◌, ◌^◌, ◌≤◌, ◌<◌, ◌≡◌, refl, inl, inr, true, is_some, String, Option,
  none, some, List, [], ◌∷◌, length, arith, ltb, if◌then◌else◌, dec_lt, Option-cases,
}
use native.Mathlib.Nat.{suc-mul}
use load_test_server.Result.{Held, ok}
use load_test_server.WebrtcPool.{WebrtcPool, WebrtcPoolItem, new}
use load_test_server.WebrtcPool.Create.{fetch_add, create_peer_connection_manager}
use load_test_server.WebrtcPool.Balance.{raised, get-fetch_add, create_cases}
use load_test_server.WebrtcPool.Fresh.{IsFresh, IsUnused, new_pool, IsFresh-count}
use load_test_server.WebrtcPool.Spread.{
  create_all, IsBounded, create-IsBounded, new-create_all-IsBalanced,
}
use load_test_server.External.Platform.{Platform}

module _ ⦃P : Platform⦄ where
  open P use {World, by_id}
  open by_id use {get}

  abbrev count_of : Option WebrtcPoolItem → ℕ
  count_of none = 0
  count_of (some item) = item.count

  -- the counts of the factories below n, added up
  abbrev pub total : ℕ → WebrtcPool → ℕ
  total zero pool = 0
  total (suc n) pool = count_of (get pool.factory_list n) + total n pool

  -- the factories below n are there, and no others
  record IsFull (n : ℕ) (pool : WebrtcPool) : Type 0 where
    inside : (j : ℕ) → j < n → is_some (get pool.factory_list j) ≡ true
    outside : (j : ℕ) → n ≤ j → get pool.factory_list j ≡ none

  total-fetch_add :
      (n : ℕ) (e : ℕ × WebrtcPoolItem) (pool : WebrtcPool)
      → get pool.factory_list e.0 ≡ some e.1
      → e.1.count + 1 < 2 ^ 64
      → total n (fetch_add e pool) ≡ total n pool + (if ltb e.0 n then 1 else 0)
  unfolding raised
  total-fetch_add zero e pool present room = ground arith
  total-fetch_add (suc n) e pool present room =
      ground (arith, total-fetch_add n e pool present room, get-fetch_add e pool n)

  below :
      (n : ℕ) (e : ℕ × WebrtcPoolItem) (pool : WebrtcPool)
      → IsFull n pool
      → get pool.factory_list e.0 ≡ some e.1
      → e.0 < n
  below n e pool full present = elim (dec_lt e.0 n) [
    | yes less ↦ less
    | no more ↦ absurd (ground (arith, full.outside e.0 (omega arith), present))
  ]

  fetch_add-IsFull :
      (n : ℕ) (e : ℕ × WebrtcPoolItem) (pool : WebrtcPool)
      → IsFull n pool
      → e.0 < n
      → IsFull n (fetch_add e pool)
  fetch_add-IsFull n e pool full less = record {
    inside = λ j h. ground (arith, full.inside j h, get-fetch_add e pool j);
    outside = λ j h. ground (arith, full.outside j h, get-fetch_add e pool j);
  }

  -- one call, whatever it returns
  record Counted (n k : ℕ) (pool : WebrtcPool) : Type 0 where
    full : IsFull n pool
    sum : total n pool ≡ k

  create-Counted :
      (n k bound : ℕ) (id name : String) (s : Held WebrtcPool World)
      → 0 < n
      → bound + 1 < 2 ^ 64
      → IsBounded bound s.item
      → Counted n k s.item
      → Counted n (suc k) (create_peer_connection_manager id name s).1.item
  create-Counted n k bound id name s some_factory room b c = elim (create_cases id name s) [
    | inl (nothing, e) ↦ absurd (ground (arith, nothing 0, c.full.inside 0 some_factory))
    | inr (x, least, e) ↦
        let less = below n x s.item c.full least.present in
        rw e (record {
          full = fetch_add-IsFull n x s.item c.full less;
          sum =
              let small = b.at_most x.0 x.1 least.present in
              ground (arith, total-fetch_add n x s.item least.present (omega arith), c.sum, less);
        })
  ]

  create_all-Counted :
      (n k m : ℕ) (calls : List (String × String)) (s : Held WebrtcPool World)
      → 0 < n
      → m ≡ k + length calls
      → m < 2 ^ 64
      → IsBounded k s.item
      → Counted n k s.item
      → Counted n m (create_all calls s).item
  create_all-Counted n k m [] s some_factory e room b c = record {
    full = c.full;
    sum = omega (arith, c.sum);
  }
  create_all-Counted n k m ((id, name) ∷ rest) s some_factory e room b c =
      create_all-Counted n (suc k) m rest (create_peer_connection_manager id name s).1 some_factory
        (omega arith) room (create-IsBounded k id name s b)
        (create-Counted n k k id name s some_factory (omega arith) b c)

  IsFresh-IsFull : (n : ℕ) (pool : WebrtcPool) → IsFresh n pool → IsFull n pool
  IsFresh-IsFull n pool f = record {
    inside = λ j h. go j (get pool.factory_list j) (f.unused j h);
    outside = f.others;
  }
    where
      go : (j : ℕ) (o : Option WebrtcPoolItem) → IsUnused j o → is_some o ≡ true
      go j none u = absurd u
      go j (some x) u = refl

  count_at_most :
      (bound j : ℕ) (pool : WebrtcPool)
      → ((i : ℕ) (y : WebrtcPoolItem) → get pool.factory_list i ≡ some y → y.count ≤ bound)
      → count_of (get pool.factory_list j) ≤ bound
  count_at_most bound j pool h = elim (Option-cases (get pool.factory_list j)) [
    | inl e ↦ rw e (omega arith)
    | inr (y, e) ↦ rw e (h j y e)
  ]

  count_at_least :
      (low j : ℕ) (pool : WebrtcPool)
      → is_some (get pool.factory_list j) ≡ true
      → ((i : ℕ) (y : WebrtcPoolItem) → get pool.factory_list i ≡ some y → low ≤ y.count + 1)
      → low ≤ count_of (get pool.factory_list j) + 1
  count_at_least low j pool there h = elim (Option-cases (get pool.factory_list j)) [
    | inl e ↦ absurd (ground (arith, e, there))
    | inr (y, e) ↦ rw e (h j y e)
  ]

  IsFresh-total : (n m : ℕ) (pool : WebrtcPool) → IsFresh n pool → total m pool ≡ 0
  IsFresh-total n zero pool f = refl
  IsFresh-total n (suc m) pool f =
      let least = count_at_most 0 m pool (λ i y p. omega (arith, IsFresh-count f i y p)) in
      omega (arith, IsFresh-total n m pool f, least)

  -- a bound of every count bounds the total
  total_at_most :
      (n bound : ℕ) (pool : WebrtcPool)
      → ((j : ℕ) (y : WebrtcPoolItem) → get pool.factory_list j ≡ some y → y.count ≤ bound)
      → total n pool ≤ n * bound
  total_at_most zero bound pool h = omega arith
  total_at_most (suc n) bound pool h =
      let here = count_at_most bound n pool h in
      let before = total_at_most n bound pool h in
      rw (suc-mul n bound) (omega (arith, here, before))

  total_at_least :
      (n m low : ℕ) (pool : WebrtcPool)
      → m ≤ n
      → IsFull n pool
      → ((j : ℕ) (y : WebrtcPoolItem) → get pool.factory_list j ≡ some y → low ≤ y.count + 1)
      → m * low ≤ total m pool + m
  total_at_least n zero low pool le full h = omega arith
  total_at_least n (suc m) low pool le full h =
      let here = count_at_least low m pool (full.inside m (omega arith)) h in
      let before = total_at_least n m low pool (omega arith) full h in
      rw (suc-mul m low) (omega (arith, here, before))

  -- From a new pool with a factory at least, fewer than 2 ^ 64 calls, successful or not and in whatever
  -- state the world is, are spread over all the factories: the counts add up to the number of calls,
  -- and the count of each is the calls divided by the factories, with a difference of at most one.
  pub new-create_all-even :
      (factory_count : ℕ) (w w' : World) (pool : WebrtcPool) (calls : List (String × String))
      (j : ℕ) (x : WebrtcPoolItem)
      → (new factory_count w).0 ≡ ok pool
      → 0 < factory_count % 2 ^ 32
      → length calls < 2 ^ 64
      → get (create_all calls (record { item = pool; world = w' })).item.factory_list j ≡ some x
      → let n = factory_count % 2 ^ 32 in
        let k = length calls in
        (total n (create_all calls (record { item = pool; world = w' })).item ≡ k)
        × (n * x.count ≤ k + n)
        × (k ≤ n * (x.count + 1))
  new-create_all-even factory_count w w' pool calls j x made some_factory few found =
      let n = factory_count % 2 ^ 32 in
      let s : Held WebrtcPool World = record { item = pool; world = w' } in
      let (_, fresh, _) = new_pool factory_count w pool made in
      let c =
        create_all-Counted n 0 (length calls) calls s some_factory (omega arith) few
          (record { at_most = λ i y p. omega (arith, IsFresh-count fresh i y p) })
          (record { full = IsFresh-IsFull n pool fresh; sum = IsFresh-total n n pool fresh }) in
      let even = new-create_all-IsBalanced factory_count w w' pool calls made few in
      let most =
        total_at_most n (x.count + 1) (create_all calls s).item
          (λ i y p. even.even i j y x p found) in
      let least =
        total_at_least n n x.count (create_all calls s).item (omega arith) c.full
          (λ i y p. even.even j i x y found p) in
      (c.sum, rw c.sum at least, rw c.sum at most)
