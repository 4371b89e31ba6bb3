-- ===== src/Result.antt =====
-- What a fallible call of the program returns, and methods that change a state and may fail.
-- Rust's `Result<A, E>` is `ok` and `err`; `panic` is an unwinding panic of the task.
pub mod Keeps
pub mod Succeeds
pub mod Ends
use load_test_server.Prelude.{◌≡◌, refl, ◌⊎◌, inl, inr, Option, none, some}

pub data Result {ℓ} (E A : Type ℓ) : Type ℓ where
  ok : A → Result E A
  err : E → Result E A
  panic : Result E A

abbrev pub of_sum {ℓ} : {E A : Type ℓ} → E ⊎ A → Result E A
of_sum (inl e) = err e
of_sum (inr a) = ok a

-- What was written before an error stays written, so the state comes back beside the error too.
abbrev pub Exec {ℓ} : Type ℓ → Type ℓ → Type ℓ → Type ℓ
Exec S E A = S → Result E A × S

module _ {ℓ} {S E A : Type ℓ} where
  abbrev pub pure : A → Exec S E A
  pure a s = (ok a, s)

  abbrev pub raise : E → Exec S E A
  raise e s = (err e, s)

  -- `ok_or_else(..)?`
  abbrev pub or_raise : Option A → E → Exec S E A
  or_raise none e s = (err e, s)
  or_raise (some a) e s = (ok a, s)

  -- `unwrap()` of an option
  abbrev pub unwrap_some : Option A → Exec S E A
  unwrap_some none s = (panic, s)
  unwrap_some (some a) s = (ok a, s)

  -- a call that may fail and does not panic
  abbrev pub fallible : (S → (E ⊎ A) × S) → Exec S E A
  fallible f s = let (r, s') = f s in (of_sum r, s')

  -- a call that cannot fail
  abbrev pub call : (S → A × S) → Exec S E A
  call f s = let (a, s') = f s in (ok a, s')

module _ {ℓ} {E F A : Type ℓ} where
  -- the error conversion of `?`
  abbrev pub convert : (E → F) → Result E A → Result F A
  convert f (ok a) = ok a
  convert f (err e) = err (f e)
  convert f panic = panic

  abbrev pub or_panic : Result E A → Result F A
  or_panic (ok a) = ok a
  or_panic (err e) = panic
  or_panic panic = panic

pub convert-eq-ok {ℓ} :
    {E F A : Type ℓ} (f : E → F) (r : Result E A) {a : A} → convert f r ≡ ok a → r ≡ ok a
convert-eq-ok f (ok b) h = cc
convert-eq-ok f (err e) h = cc
convert-eq-ok f panic h = cc

module _ {ℓ} {S E F A : Type ℓ} where
  abbrev pub map_err : (E → F) → Exec S E A → Exec S F A
  map_err f m s = let (r, s') = m s in (convert f r, s')

  -- `unwrap()` of a result
  abbrev pub unwrap : Exec S E A → Exec S F A
  unwrap m s = let (r, s') = m s in (or_panic r, s')

module _ {ℓ} {S E A B : Type ℓ} where
  abbrev pub continue : Result E A → (A → Exec S E B) → Exec S E B
  continue (ok a) f s = f a s
  continue (err e) f s = (err e, s)
  continue panic f s = (panic, s)

  infixl 5 ◌>>=◌ ◌>>◌
  abbrev pub ◌>>=◌ : Exec S E A → (A → Exec S E B) → Exec S E B
  ◌>>=◌ m f s = let (r, s') = m s in continue r f s'

  abbrev pub ◌>>◌ : Exec S E A → Exec S E B → Exec S E B
  m >> n = m >>= λ _. n

pub Result-cases {ℓ} :
    {E A : Type ℓ} (r : Result E A) → ((a : A) × (r ≡ ok a)) ⊎ ((e : E) × (r ≡ err e)) ⊎ (r ≡ panic)
Result-cases (ok a) = inl (a, refl)
Result-cases (err e) = inr (inl (e, refl))
Result-cases panic = inr (inr refl)

module _ {ℓ} {S E A B : Type ℓ} where
  continue-eq-ok :
      (r : Result E A) (f : A → Exec S E B) (s : S) {b : B}
      → (continue r f s).0 ≡ ok b
      → (a : A) × (r ≡ ok a) × ((f a s).0 ≡ ok b)
  continue-eq-ok (ok a) f s h = (a, refl, h)
  continue-eq-ok (err e) f s h = cc
  continue-eq-ok panic f s h = cc

  -- what a block that succeeds has passed through
  pub >>=-eq-ok :
      (m : Exec S E A) (f : A → Exec S E B) (s : S) {b : B}
      → ((m >>= f) s).0 ≡ ok b
      → (a : A) × ((m s).0 ≡ ok a) × ((f a (m s).1).0 ≡ ok b)
  >>=-eq-ok m f s h = continue-eq-ok (m s).0 f (m s).1 h

module _ {ℓ} {S E A B : Type ℓ} where
  continue-pure-state :
      (r : Result E A) (f : A → B) (s : S) → (continue r (λ a. pure (f a)) s).1 ≡ s
  continue-pure-state (ok a) f s = refl
  continue-pure-state (err e) f s = refl
  continue-pure-state panic f s = refl

  -- a response is computed from the result without a further change
  pub bind-pure-state :
      (m : Exec S E A) (f : A → B) (s : S) → ((m >>= λ a. pure (f a)) s).1 ≡ (m s).1
  bind-pure-state m f s = continue-pure-state (m s).0 f (m s).1

-- An object that a method changes, beside all state outside of the server.
pub record Held {ℓ} (I W : Type ℓ) : Type ℓ where
  pub item : I
  pub world : W

module _ {ℓ} {I W E A : Type ℓ} where
  -- a call that leaves the object alone
  abbrev pub on_world : Exec W E A → Exec (Held I W) E A
  on_world m s = let (r, w) = m s.world in (r, record s { world = w })

  -- a call that changes the object alone
  abbrev pub on_item : Exec I E A → Exec (Held I W) E A
  on_item m s = let (r, i) = m s.item in (r, record s { item = i })
