-- ===== src/External/DashMap.antt =====
-- The concurrent hash map of the dashmap crate, as far as the server uses it. A write through a
-- reference that `get_mut` or `iter_mut` gives is an insert at its key.
use load_test_server.Prelude.{◌≡◌, ◌≢◌, Option, none, some, List, All, Memᴰ, Distinct, map}

pub record DashMap (K : Type 0) : Type 1 where
  pub Map : Type 0 → Type 0
  pub empty : {V : Type 0} → Map V
  pub insert : {V : Type 0} → Map V → K → V → Map V
  pub get : {V : Type 0} → Map V → K → Option V
  -- what `iter` visits, in an order that is left open
  pub entries : {V : Type 0} → Map V → List (K × V)
  -- A lookup finds what was last inserted at its key, and an iteration visits each entry once and no
  -- others.
  pub get-empty : {V : Type 0} (k : K) → get (empty {V = V}) k ≡ none
  pub get-insert_self : {V : Type 0} (m : Map V) (k : K) (v : V) → get (insert m k v) k ≡ some v
  pub get-insert_ne :
      {V : Type 0} (m : Map V) (k j : K) (v : V) → k ≢ j → get (insert m k v) j ≡ get m j
  pub get_of_entries : {V : Type 0} (m : Map V) → All (λ e. get m e.0 ≡ some e.1) (entries m)
  pub mem-entries :
      {V : Type 0} (m : Map V) (k : K) (v : V) → get m k ≡ some v → Memᴰ (k, v) (entries m)
  pub entries-Distinct : {V : Type 0} (m : Map V) → Distinct (map (λ e. e.0) (entries m))
  -- Maps are equal by their contents: a write of what is there is none, and the last write counts.
  pub insert-get : {V : Type 0} (m : Map V) (k : K) (v : V) → get m k ≡ some v → insert m k v ≡ m
  pub insert-insert :
      {V : Type 0} (m : Map V) (k : K) (v w : V) → insert (insert m k v) k w ≡ insert m k w
