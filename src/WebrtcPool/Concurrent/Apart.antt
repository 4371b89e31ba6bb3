-- ===== src/WebrtcPool/Concurrent/Apart.antt =====
-- src/webrtc_pool.rs: the counts of a pool whose calls run on several threads.
use load_test_server.Prelude.{
  ℕ, ◌+◌, ◌^◌, ◌≤◌, ◌<◌, ◌≡◌, refl, subst, inl, inr, some, List, [], ◌∷◌, length, arith, ltb, ◌==◌,
  ==_iff, if◌then◌else◌, Option-cases, Bool-cases,
}
use load_test_server.Result.{ok}
use load_test_server.WebrtcPool.{WebrtcPool, WebrtcPoolItem, new}
use load_test_server.WebrtcPool.Balance.{IsLeast, min_by_count_cases, raised, get-fetch_add}
use load_test_server.WebrtcPool.Fresh.{new_pool, IsFresh-count}
use load_test_server.WebrtcPool.Concurrent.{
  pending, without, Progress, choose, add, Calls, choose_least, add_one, progress, progress_all,
}
use load_test_server.External.Platform.{Platform}

pending-le-length : (j : ℕ) (ks : List ℕ) → pending j ks ≤ length ks
pending-le-length j [] = omega arith
pending-le-length j (k ∷ ks) = ground (arith, pending-le-length j ks)

pending-without :
    (j k : ℕ) (ks : List ℕ)
    → 0 < pending k ks
    → pending j (without k ks) + (if k == j then 1 else 0) ≡ pending j ks
pending-without j k [] h = absurd (omega arith)
pending-without j k (i ∷ ks) h = ground (arith, pending-without j k ks)

length-without : (k : ℕ) (ks : List ℕ) → length (without k ks) ≤ length ks
length-without k [] = omega arith
length-without k (i ∷ ks) = ground (arith, length-without k ks)

module _ ⦃P : Platform⦄ where
  open P use {World, by_id}
  open by_id use {get, entries}

  -- the counts of two factories, with the calls under way to the one, differ by the threads at most
  record IsSpread (threads bound : ℕ) (s : Calls) : Type 0 where
    even :
        (i j : ℕ) (x y : WebrtcPoolItem)
        → get s.pool.factory_list i ≡ some x
        → get s.pool.factory_list j ≡ some y
        → x.count + pending i s.chosen ≤ y.count + threads
    few : length s.chosen ≤ threads
    bounded : (i : ℕ) (x : WebrtcPoolItem) → get s.pool.factory_list i ≡ some x → x.count ≤ bound

  weaken :
      {threads bound larger : ℕ} {s : Calls}
      → bound ≤ larger
      → IsSpread threads bound s
      → IsSpread threads larger s
  weaken le h = record {
    even = h.even;
    few = h.few;
    bounded = λ i x p. omega (arith, h.bounded i x p);
  }

  choose-IsSpread :
      (threads bound : ℕ) (e : ℕ × WebrtcPoolItem) (s : Calls)
      → length s.chosen < threads
      → IsLeast s.pool e
      → IsSpread threads bound s
      → IsSpread threads bound (record s { chosen = e.0 ∷ s.chosen })
  choose-IsSpread threads bound e s room l h = record {
    even = λ i j x y p q. ground (
      arith,
      h.even i j x y p q,
      l.present,
      l.least j y q,
      pending-le-length i s.chosen,
      p,
      ==_iff e.0 i,
    );
    few = omega arith;
    bounded = h.bounded;
  }

  choose_least-IsSpread :
      (threads bound : ℕ) (s : Calls)
      → length s.chosen < threads
      → IsSpread threads bound s
      → IsSpread threads bound (choose_least s)
  unfolding choose_least
  choose_least-IsSpread threads bound s room h =
      elim (min_by_count_cases s.pool (entries s.pool.factory_list) refl) [
        | inl (nothing, e) ↦ rw (e, choose_least) h
        | inr (x, e, least) ↦ rw (e, choose_least) (choose-IsSpread threads bound x s room least h)
      ]

  -- each entry is the one from before, with one more call if the call that adds chose it
  get-add_one :
      (bound k : ℕ) (pool : WebrtcPool) (j : ℕ) (x : WebrtcPoolItem)
      → bound + 1 < 2 ^ 64
      → ((i : ℕ) (y : WebrtcPoolItem) → get pool.factory_list i ≡ some y → y.count ≤ bound)
      → get (add_one k pool).factory_list j ≡ some x
      → (y : WebrtcPoolItem) × (get pool.factory_list j ≡ some y)
        × (x.count ≡ y.count + (if k == j then 1 else 0))
  unfolding add_one raised
  get-add_one bound k pool j x room bounded h = elim (Option-cases (get pool.factory_list k)) [
    | inl e ↦ (x, ground (arith, ==_iff k j), ground (arith, ==_iff k j))
    | inr (z, e) ↦ elim (Bool-cases (k == j)) [
      | inl t ↦ (
        z,
        ground (arith, ==_iff k j),
        ground (arith, get-fetch_add (k, z) pool j, bounded k z e),
      )
      | inr f ↦ (x, ground (arith, get-fetch_add (k, z) pool j), ground arith)
    ]
  ]

  add-IsSpread :
      (threads bound k : ℕ) (s : Calls)
      → bound + 1 < 2 ^ 64
      → 0 < pending k s.chosen
      → IsSpread threads bound s
      → IsSpread threads
          (bound + 1)
          (record { pool = add_one k s.pool; chosen = without k s.chosen })
  add-IsSpread threads bound k s room waits h = record {
    even = λ i j x y p q.
        let (u, found_u, eq_u) = get-add_one bound k s.pool i x room h.bounded p in
        let (v, found_v, eq_v) = get-add_one bound k s.pool j y room h.bounded q in
        ground (arith, pending-without i k s.chosen waits, h.even i j u v found_u found_v);
    few = ground (arith, h.few, length-without k s.chosen);
    bounded = λ i x p.
        let (u, found_u, eq_u) = get-add_one bound k s.pool i x room h.bounded p in
        ground (arith, h.bounded i u found_u);
  }

  progress-IsSpread :
      (threads bound : ℕ) (e : Progress) (s : Calls)
      → bound + 1 < 2 ^ 64
      → IsSpread threads bound s
      → IsSpread threads (bound + 1) (progress threads e s)
  unfolding progress
  progress-IsSpread threads bound choose s room h =
      elim (Bool-cases (ltb (length s.chosen) threads)) [
        | inl t ↦
            rw t (weaken (omega arith) (choose_least-IsSpread threads bound s (ground arith) h))
        | inr f ↦ rw f (weaken (omega arith) h)
      ]
  progress-IsSpread threads bound (add k) s room h =
      elim (Bool-cases (ltb 0 (pending k s.chosen))) [
        | inl t ↦ rw t (add-IsSpread threads bound k s room (ground arith) h)
        | inr f ↦ rw f (weaken (omega arith) h)
      ]

  progress_all-IsSpread :
      (threads : ℕ) (es : List Progress) (bound : ℕ) (s : Calls)
      → bound + length es < 2 ^ 64
      → IsSpread threads bound s
      → IsSpread threads (bound + length es) (progress_all threads es s)
  unfolding progress_all
  progress_all-IsSpread threads [] bound s room h = weaken (omega arith) h
  progress_all-IsSpread threads (e ∷ es) bound s room h =
      subst (λ n. IsSpread threads n (progress_all threads (e ∷ es) s)) (omega arith)
        (progress_all-IsSpread threads es (bound + 1) (progress threads e s) (omega arith)
          (progress-IsSpread threads bound e s (omega arith) h))

  -- From a new pool, with calls on some threads at once whose choices and additions interleave in any
  -- order, the counts of any two factories are never more than the number of threads apart, as long as
  -- fewer than 2 ^ 64 steps have been taken.
  pub progress_all-new :
      (factory_count threads : ℕ) (w : World) (pool : WebrtcPool) (es : List Progress)
      → (new factory_count w).0 ≡ ok pool
      → length es < 2 ^ 64
      → (i j : ℕ) (x y : WebrtcPoolItem)
      → get (progress_all threads es (record { pool = pool; chosen = [] })).pool.factory_list i
        ≡ some x
      → get (progress_all threads es (record { pool = pool; chosen = [] })).pool.factory_list j
        ≡ some y
      → x.count ≤ y.count + threads
  progress_all-new n threads w pool es h room i j x y p q =
      let (count, fresh, even) = new_pool n w pool h in
      let spread =
        progress_all-IsSpread threads es 0 (record { pool = pool; chosen = [] }) (omega arith)
          (record {
            even = λ i j x y p q. omega (arith, IsFresh-count fresh i x p);
            few = omega arith;
            bounded = λ i x p. omega (arith, IsFresh-count fresh i x p);
          }) in
      omega (arith, spread.even i j x y p q)
