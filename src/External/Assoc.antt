-- ===== src/External/Assoc.antt =====
-- An association list as a map of the interface DashMap, for the concrete examples.
use load_test_server.Prelude.{
  ◌≡◌, ◌≢◌, ◌↔◌, inl, inr, refl, ap, Bool, true, Option, none, some, List, [], ◌∷◌, All, Memᴰ,
  Distinct, map, arith, if◌then◌else◌, Bool-cases,
}
use load_test_server.External.DashMap.{DashMap}

module _ {K : Type 0} (equal : K → K → Bool)
    (equal_iff : (a b : K) → (equal a b ≡ true) ↔ (a ≡ b)) where
  module _ {V : Type 0} where
    abbrev pub lookup : List (K × V) → K → Option V
    lookup [] k = none
    lookup ((j, v) ∷ m) k = if equal j k then some v else lookup m k

    abbrev pub store : List (K × V) → K → V → List (K × V)
    store [] k v = (k, v) ∷ []
    store ((j, w) ∷ m) k v = if equal j k then (j, v) ∷ m else (j, w) ∷ store m k v

    abbrev pub without : K → List (K × V) → List (K × V)
    without k [] = []
    without k ((j, v) ∷ m) = let rest = without k m in if equal j k then rest else (j, v) ∷ rest

    -- the entries that `lookup` finds
    abbrev pub visible : List (K × V) → List (K × V)
    visible [] = []
    visible ((k, v) ∷ m) = (k, v) ∷ without k (visible m)

    pub lookup-store_self : (m : List (K × V)) (k : K) (v : V) → lookup (store m k v) k ≡ some v
    lookup-store_self [] k v = ground (arith, equal_iff k k)
    lookup-store_self ((j, w) ∷ m) k v = ground (arith, equal_iff j k, lookup-store_self m k v)

    pub lookup-store_ne :
        (m : List (K × V)) (k j : K) (v : V) → k ≢ j → lookup (store m k v) j ≡ lookup m j
    lookup-store_ne [] k j v h = ground (arith, equal_iff k j)
    lookup-store_ne ((i, w) ∷ m) k j v h =
        ground (arith, equal_iff i k, equal_iff i j, lookup-store_ne m k j v h)

    pub store-lookup : (m : List (K × V)) (k : K) (v : V) → lookup m k ≡ some v → store m k v ≡ m
    store-lookup [] k v h = cc
    store-lookup ((j, w) ∷ m) k v h = elim (Bool-cases (equal j k)) [
      | inl e ↦ rw e (ap (λ u. (j, u) ∷ m) (ground (arith, h, e)))
      | inr e ↦ rw e (ap (λ l. (j, w) ∷ l) (store-lookup m k v (ground (arith, h, e))))
    ]

    pub store-store : (m : List (K × V)) (k : K) (v w : V) → store (store m k v) k w ≡ store m k w
    store-store [] k v w = ground (arith, equal_iff k k)
    store-store ((j, u) ∷ m) k v w = ground (arith, store-store m k v w)

    lookup-without : (k j : K) (m : List (K × V)) → k ≢ j → lookup (without k m) j ≡ lookup m j
    lookup-without k j [] h = refl
    lookup-without k j ((i, w) ∷ m) h =
        ground (arith, equal_iff i k, equal_iff i j, lookup-without k j m h)

    All-without :
        (k : K) (v : V) (m l : List (K × V))
        → All (λ e. lookup m e.0 ≡ some e.1) l
        → All (λ e. lookup ((k, v) ∷ m) e.0 ≡ some e.1) (without k l)
    All-without k v m [] h = tt
    All-without k v m ((j, w) ∷ l) h = elim (Bool-cases (equal j k)) [
      | inl e ↦ rw e (All-without k v m l h.1)
      | inr e ↦ rw e (ground (arith, equal_iff j k, equal_iff k j), All-without k v m l h.1)
    ]

    pub lookup_of_visible : (m : List (K × V)) → All (λ e. lookup m e.0 ≡ some e.1) (visible m)
    lookup_of_visible [] = tt
    lookup_of_visible ((k, v) ∷ m) =
        (ground (arith, equal_iff k k), All-without k v m (visible m) (lookup_of_visible m))

    mem-without :
        (k j : K) (v : V) (l : List (K × V)) → j ≢ k → Memᴰ (k, v) l → Memᴰ (k, v) (without j l)
    mem-without k j v [] h m = elim m [ ]
    mem-without k j v ((i, w) ∷ l) h (Memᴰ.head e) = elim (Bool-cases (equal i j)) [
      | inl same ↦ absurd (h (ground (arith, equal_iff i j)))
      | inr other ↦ rw other (Memᴰ.head e)
    ]
    mem-without k j v ((i, w) ∷ l) h (Memᴰ.tail m) = elim (Bool-cases (equal i j)) [
      | inl same ↦ rw same (mem-without k j v l h m)
      | inr other ↦ rw other (Memᴰ.tail (mem-without k j v l h m))
    ]

    pub mem-visible :
        (m : List (K × V)) (k : K) (v : V) → lookup m k ≡ some v → Memᴰ (k, v) (visible m)
    mem-visible [] k v h = cc
    mem-visible ((j, w) ∷ m) k v h = elim (Bool-cases (equal j k)) [
      | inl same ↦ Memᴰ.head (ground (arith, equal_iff j k))
      | inr other ↦ Memᴰ.tail (
          mem-without k j v (visible m) (ground (arith, equal_iff j k))
            (mem-visible m k v (ground arith)))
    ]

    keys-without : (k : K) (l : List (K × V)) → All (λ j. j ≢ k) (map (λ e. e.0) (without k l))
    keys-without k [] = tt
    keys-without k ((i, w) ∷ l) = elim (Bool-cases (equal i k)) [
      | inl same ↦ rw same (keys-without k l)
      | inr other ↦ rw other (ground (arith, equal_iff i k), keys-without k l)
    ]

    All-keys_without :
        (k j : K) (l : List (K × V))
        → All (λ i. i ≢ j) (map (λ e. e.0) l)
        → All (λ i. i ≢ j) (map (λ e. e.0) (without k l))
    All-keys_without k j [] h = tt
    All-keys_without k j ((i, w) ∷ l) h = elim (Bool-cases (equal i k)) [
      | inl same ↦ rw same (All-keys_without k j l h.1)
      | inr other ↦ rw other (h.0, All-keys_without k j l h.1)
    ]

    Distinct-without :
        (k : K) (l : List (K × V))
        → Distinct (map (λ e. e.0) l)
        → Distinct (map (λ e. e.0) (without k l))
    Distinct-without k [] h = tt
    Distinct-without k ((i, w) ∷ l) h = elim (Bool-cases (equal i k)) [
      | inl same ↦ rw same (Distinct-without k l h.1)
      | inr other ↦ rw other (All-keys_without k i l h.0, Distinct-without k l h.1)
    ]

    pub visible-Distinct : (m : List (K × V)) → Distinct (map (λ e. e.0) (visible m))
    visible-Distinct [] = tt
    visible-Distinct ((k, v) ∷ m) =
        (keys-without k (visible m), Distinct-without k (visible m) (visible-Distinct m))

  abbrev pub assoc_map : DashMap K
  assoc_map = record {
    Map = λ V. List (K × V);
    empty = [];
    insert = store;
    get = lookup;
    entries = visible;
    get-empty = λ k. refl;
    get-insert_self = lookup-store_self;
    get-insert_ne = lookup-store_ne;
    get_of_entries = lookup_of_visible;
    mem-entries = mem-visible;
    entries-Distinct = visible-Distinct;
    insert-get = store-lookup;
    insert-insert = store-store;
  }
