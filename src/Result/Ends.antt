-- ===== src/Result/Ends.antt =====
-- Calls that return a result with a property, from a given state.
use load_test_server.Prelude.{◌≡◌, refl, ap, ◌∙◌}
use load_test_server.Result.{ok, Exec, or_panic, pure, call, unwrap, continue, ◌>>=◌}
use load_test_server.Result.Succeeds.{Succeeds}

-- what a call returns, the state that it leaves, and a property of both
pub record Ends {ℓ} {S E A : Type ℓ} (m : Exec S E A) (s : S) (Q : A → S → Type ℓ) : Type ℓ where
  pub result : A
  pub after : S
  pub runs : m s ≡ (ok result, after)
  pub holds : Q result after

module _ {ℓ} {S E A : Type ℓ} where
  pub Ends-pure : {Q : A → S → Type ℓ} (a : A) (s : S) → Q a s → Ends {E = E} (pure a) s Q
  Ends-pure a s q = record { result = a; after = s; runs = refl; holds = q }

  pub Ends-call :
      {Q : A → S → Type ℓ} (f : S → A × S) (s : S) → Q (f s).0 (f s).1 → Ends {E = E} (call f) s Q
  Ends-call f s q = record { result = (f s).0; after = (f s).1; runs = refl; holds = q }

  pub Ends-weaken :
      {Q R : A → S → Type ℓ} (m : Exec S E A) (s : S)
      → Ends m s Q
      → ((a : A) (t : S) → Q a t → R a t)
      → Ends m s R
  Ends-weaken m s h to = record {
    result = h.result;
    after = h.after;
    runs = h.runs;
    holds = to h.result h.after h.holds;
  }

  -- a call that returns a result in every state, with what it returns
  pub Succeeds-Ends : (m : Exec S E A) (s : S) → Succeeds m → Ends m s (λ a t. m s ≡ (ok a, t))
  Succeeds-Ends m s h =
      let (a, e) = h.returns s in
      let runs : m s ≡ (ok a, (m s).1) = ap (λ r. (r, (m s).1)) e in
      record { result = a; after = (m s).1; runs = runs; holds = runs }

  pub Ends-Succeeds : {Q : A → S → Type ℓ} (m : Exec S E A) → ((s : S) → Ends m s Q) → Succeeds m
  Ends-Succeeds m h = record { returns = λ s. ((h s).result, ap (λ r. r.0) (h s).runs) }

module _ {ℓ} {S E F A : Type ℓ} where
  pub Ends-unwrap :
      {Q : A → S → Type ℓ} (m : Exec S E A) (s : S) → Ends m s Q → Ends {E = F} (unwrap m) s Q
  Ends-unwrap m s h = record {
    result = h.result;
    after = h.after;
    runs = ap (λ r. (or_panic r.0, r.1)) h.runs;
    holds = h.holds;
  }

module _ {ℓ} {S E A B : Type ℓ} where
  pub Ends-bind :
      {Q : A → S → Type ℓ} {R : B → S → Type ℓ} (m : Exec S E A) (f : A → Exec S E B) (s : S)
      → Ends m s Q
      → ((a : A) (t : S) → Q a t → Ends (f a) t R)
      → Ends (m >>= f) s R
  Ends-bind m f s h k =
      let next = k h.result h.after h.holds in
      record {
        result = next.result;
        after = next.after;
        runs = ap (λ r. continue r.0 f r.1) h.runs ∙ next.runs;
        holds = next.holds;
      }

  -- a block whose first call is known to give a value with a property
  pub Succeeds-bind_given :
      {Q : A → S → Type ℓ} (m : Exec S E A) (f : A → Exec S E B)
      → ((s : S) → Ends m s Q)
      → ((a : A) (t : S) → Q a t → Succeeds (f a))
      → Succeeds (m >>= f)
  Succeeds-bind_given m f h k = record {
    returns = λ s.
        let first = h s in
        let (b, e) = (k first.result first.after first.holds).returns first.after in
        (b, ap (λ r. (continue r.0 f r.1).0) first.runs ∙ e);
  }
