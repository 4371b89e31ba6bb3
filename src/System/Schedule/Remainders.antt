-- ===== src/System/Schedule/Remainders.antt =====
-- src/data.rs: how often an interval is due.
use native.Mathlib.Nat.{suc-mod, mod-lt, mod_self, mod-eq_of_lt}
use load_test_server.Prelude.{
  ℕ, zero, suc, ◌+◌, ◌%◌, ◌≤◌, ◌<◌, ◌≡◌, inl, inr, ap, ◌∙◌, Bool, List, [], ◌∷◌, ◌==◌, ltb,
  Bool-cases, arith, if◌then◌else◌,
}
use load_test_server.System.Schedule.{due}

abbrev pub trues : List Bool → ℕ
trues [] = 0
trues (b ∷ bs) = (if b then 1 else 0) + trues bs

suc-remainder : (e p : ℕ) → 0 < p → (e + 1) % p ≡ (if e % p + 1 == p then 0 else e % p + 1)
suc-remainder e p h = elim (Bool-cases (e % p + 1 == p)) [
  | inl last ↦ rw last (
      ap (λ n. n % p) (omega arith)
      ∙ suc-mod e p
      ∙ ap (λ n. n % p) (ground (arith, last))
      ∙ mod_self p)
  | inr more ↦ rw more (
      ap (λ n. n % p) (omega arith)
      ∙ suc-mod e p
      ∙ mod-eq_of_lt (ground (arith, more, mod-lt e h))
      ∙ omega arith)
]

-- the due turns among at most as many as the interval is long
trues-due_at_most :
    (p e n : ℕ)
    → 0 < p
    → n ≤ p
    → trues (due p e n)
      ≡ (if e % p == 0 then (if n == 0 then 0 else 1) else if ltb p (e % p + n) then 1 else 0)
trues-due_at_most p e zero h le = ground (arith, mod-lt e h)
trues-due_at_most p e (suc n) h le =
    ground (arith, trues-due_at_most p (e + 1) n h, suc-remainder e p h, mod-lt e h)

-- exactly one of as many turns in a row as an interval has seconds
pub trues-due : (p e : ℕ) → 0 < p → trues (due p e p) ≡ 1
trues-due p e h = ground (arith, trues-due_at_most p e p h, mod-lt e h)
