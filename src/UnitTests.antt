-- ===== src/UnitTests.antt =====
-- src/peer_connection.rs, src/session.rs, src/stats.rs, src/data.rs: unit tests of the repository, as
-- programs that panic where an assertion or an unwrap fails.
pub mod Connections
pub mod Sessions
pub mod Statistics
pub mod Ready
pub mod Passing
use load_test_server.Prelude.{Bool, true, false}
use load_test_server.Result.{Exec, Result, Held, ok, err, panic}

module _ {ℓ} {E A I : Type ℓ} where
  abbrev pub with_item : I → Result E A → Result E (A × I)
  with_item i (ok a) = ok (a, i)
  with_item i (err e) = err e
  with_item i panic = panic

  -- a method call on a local object, with the object after it
  abbrev pub on_held : {W : Type ℓ} → Exec (Held I W) E A → I → Exec W E (A × I)
  on_held m i w = let (r, t) = m (record { item = i; world = w }) in (with_item t.item r, t.world)

-- `assert!`
abbrev pub check : {S E : Type 0} → Bool → Exec S E (Unit {0})
check true s = (ok tt, s)
check false s = (panic, s)
