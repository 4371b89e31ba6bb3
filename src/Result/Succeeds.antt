-- ===== src/Result/Succeeds.antt =====
-- Calls that return a result in every state, by the way that the calls are built.
use load_test_server.Prelude.{◌≡◌, refl, ap, ◌∙◌, true, is_some, Option, none, some}
use load_test_server.Result.{
  ok, Exec, Held, on_world, convert, or_panic, pure, call, unwrap_some, map_err, unwrap, continue,
  ◌>>=◌,
}

pub record Succeeds {ℓ} {S E A : Type ℓ} (m : Exec S E A) : Type ℓ where
  pub returns : (s : S) → (a : A) × ((m s).0 ≡ ok a)

module _ {ℓ} {S E A : Type ℓ} where
  pub Succeeds-pure : (a : A) → Succeeds {S = S} {E = E} (pure a)
  Succeeds-pure a = record { returns = λ s. (a, refl) }

  pub Succeeds-call : (f : S → A × S) → Succeeds {E = E} (call f)
  Succeeds-call f = record { returns = λ s. ((f s).0, refl) }

module _ {ℓ} {S E F A : Type ℓ} where
  pub Succeeds-map_err : (f : E → F) (m : Exec S E A) → Succeeds m → Succeeds (map_err f m)
  Succeeds-map_err f m h = record {
    returns = λ s. let (a, e) = h.returns s in (a, ap (convert f) e);
  }

  pub Succeeds-unwrap : (m : Exec S E A) → Succeeds m → Succeeds {E = F} (unwrap m)
  Succeeds-unwrap m h = record { returns = λ s. let (a, e) = h.returns s in (a, ap or_panic e) }

module _ {ℓ} {I W E A : Type ℓ} where
  pub Succeeds-on_world : (m : Exec W E A) → Succeeds m → Succeeds {S = Held I W} (on_world m)
  Succeeds-on_world m h = record { returns = λ s. h.returns s.world }

module _ {ℓ} {S E A B : Type ℓ} where
  pub Succeeds-bind :
      (m : Exec S E A) (f : A → Exec S E B)
      → Succeeds m
      → ((a : A) → Succeeds (f a))
      → Succeeds (m >>= f)
  Succeeds-bind m f hm hf = record {
    returns = λ s.
        let (a, e) = hm.returns s in
        let (b, d) = (hf a).returns (m s).1 in (b, ap (λ r. (continue r f (m s).1).0) e ∙ d);
  }

  -- a call of a channel that has something, unwrapped
  pub Succeeds-unwrap_call :
      (f : S → Option A × S) (g : A → Exec S E B)
      → ((s : S) → is_some (f s).0 ≡ true)
      → ((a : A) → Succeeds (g a))
      → Succeeds (call f >>= λ o. unwrap_some o >>= g)
  Succeeds-unwrap_call f g there h = record { returns = λ s. some_case (f s).0 (f s).1 (there s) }
    where
      some_case :
          (o : Option A) (t : S) → is_some o ≡ true → (b : B) × (((unwrap_some o >>= g) t).0 ≡ ok b)
      some_case none t e = cc
      some_case (some a) t e = (h a).returns t

pub ruleset succeeds_rules = (
  Succeeds-pure, Succeeds-call, Succeeds-map_err, Succeeds-unwrap, Succeeds-on_world, Succeeds-bind,
)
