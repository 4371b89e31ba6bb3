-- ===== src/External/Maps.antt =====
-- The laws of DashMap in the form that the proofs use.
use text.Mathlib.Text.{◌==◌ as str_eq}
use text.Mathlib.TextEquality.{eq_iff}
use mathlib.Core.Path.{subst₂}
use load_test_server.Prelude.{
  ℕ, ◌≡◌, refl, inl, inr, String, Option, none, some, List, [], ◌∷◌, Memᴰ, arith, ◌==◌, ==_iff,
  if◌then◌else◌, Bool-cases, All-mem,
}
use load_test_server.External.DashMap.{DashMap}

module _ {V : Type 0} (maps : DashMap String) where
  open maps use {Map, insert, get, get-insert_self, get-insert_ne}

  pub get-insert_text :
      (m : Map V) (k j : String) (v : V)
      → get (insert m k v) j ≡ (if str_eq k j then some v else get m j)
  get-insert_text m k j v = elim (Bool-cases (str_eq k j)) [
    | inl e ↦ rw (e, ← (eq_iff k j).0 e) (get-insert_self m k v)
    | inr e ↦ rw e (get-insert_ne m k j v (ground (arith, eq_iff k j)))
  ]

  -- a property of every entry, after an insertion
  pub every-insert :
      {Q : String → V → Type 0} (m : Map V) (k : String) (v : V)
      → ((j : String) (x : V) → get m j ≡ some x → Q j x)
      → Q k v
      → (j : String) (x : V) → get (insert m k v) j ≡ some x
      → Q j x
  every-insert {Q} m k v all q j x found = elim (Bool-cases (str_eq k j)) [
    | inl e ↦ subst₂ Q ((eq_iff k j).0 e) (ground (arith, get-insert_text m k j v)) q
    | inr e ↦ all j x (ground (arith, get-insert_text m k j v))
  ]

module _ {V : Type 0} (maps : DashMap ℕ) where
  open maps use {Map, insert, get, get-insert_self, get-insert_ne}

  pub get-insert_id :
      (m : Map V) (k j : ℕ) (v : V) → get (insert m k v) j ≡ (if k == j then some v else get m j)
  get-insert_id m k j v = elim (Bool-cases (k == j)) [
    | inl e ↦ rw (e, ← (==_iff k j).0 e) (get-insert_self m k v)
    | inr e ↦ rw e (get-insert_ne m k j v (ground (arith, ==_iff k j)))
  ]

module _ {K V : Type 0} (maps : DashMap K) where
  open maps use {Map, get, entries, get_of_entries, mem-entries}

  pub get_of_mem : (m : Map V) (e : K × V) → Memᴰ e (entries m) → get m e.0 ≡ some e.1
  get_of_mem m e h = All-mem (λ (d : K × V). get m d.0 ≡ some d.1) h (get_of_entries m)

  -- an iteration that visits nothing
  pub get_of_no_entries : (m : Map V) → entries m ≡ [] → (k : K) → get m k ≡ none
  get_of_no_entries m h k = go (get m k) refl
    where
      empty_mem : (e : K × V) → Memᴰ e [] → ⊥
      empty_mem e d = elim d [ ]

      go : (o : Option V) → get m k ≡ o → o ≡ none
      go none e = refl
      go (some v) e = absurd (empty_mem (k, v) (rw h at (mem-entries m k v e)))

  -- an iteration over an empty map
  pub no_entries : (m : Map V) → ((k : K) → get m k ≡ none) → entries m ≡ []
  no_entries m absent = go (entries m) refl
    where
      go : (l : List (K × V)) → entries m ≡ l → l ≡ []
      go [] e = refl
      go (d ∷ l) e = absurd (cc (absent d.0, get_of_mem m d (rw e (Memᴰ.head refl))))
