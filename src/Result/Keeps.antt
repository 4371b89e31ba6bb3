-- ===== src/Result/Keeps.antt =====
-- Methods and the object that they are called on, by the way that the methods are built.
use load_test_server.Prelude.{◌≡◌, refl, ◌∙◌}
use load_test_server.Result.{
  Result, ok, err, panic, Exec, Held, pure, map_err, on_world, continue, ◌>>=◌,
}

-- the object is the same after the call, however it ends
pub record Keeps {ℓ} {I W E A : Type ℓ} (m : Exec (Held I W) E A) : Type ℓ where
  pub same : (s : Held I W) → (m s).1.item ≡ s.item

module _ {ℓ} {I W E A : Type ℓ} where
  pub Keeps-pure : (a : A) → Keeps {I = I} {W = W} {E = E} (pure a)
  Keeps-pure a = record { same = λ s. refl }

  pub Keeps-lift : (r : Result E A) → Keeps {I = I} {W = W} (λ s. (r, s))
  Keeps-lift r = record { same = λ s. refl }

  pub Keeps-on_world : (m : Exec W E A) → Keeps {I = I} (on_world m)
  Keeps-on_world m = record { same = λ s. refl }

module _ {ℓ} {I W E F A : Type ℓ} where
  pub Keeps-map_err : (f : E → F) (m : Exec (Held I W) E A) → Keeps m → Keeps (map_err f m)
  Keeps-map_err f m k = record { same = k.same }

module _ {ℓ} {I W E A B : Type ℓ} where
  Keeps-continue :
      (r : Result E A) (f : A → Exec (Held I W) E B) (s : Held I W)
      → ((a : A) → Keeps (f a))
      → (continue r f s).1.item ≡ s.item
  Keeps-continue (ok a) f s k = (k a).same s
  Keeps-continue (err e) f s k = refl
  Keeps-continue panic f s k = refl

  pub Keeps-bind :
      (m : Exec (Held I W) E A) (f : A → Exec (Held I W) E B)
      → Keeps m
      → ((a : A) → Keeps (f a))
      → Keeps (m >>= f)
  Keeps-bind m f km kf = record { same = λ s. Keeps-continue (m s).0 f (m s).1 kf ∙ km.same s }

pub ruleset keeps_rules = (Keeps-pure, Keeps-lift, Keeps-on_world, Keeps-map_err, Keeps-bind)
