-- ===== src/System/Lifecycle.antt =====
-- src/session.rs: what a client can tell of a session, and how start and stop change it.
use text.Mathlib.TextEquality.{eq_iff}
use text.Mathlib.Text.{◌==◌ as str_eq}
use load_test_server.Prelude.{
  ◌≡◌, refl, ap, ◌∙◌, inl, inr, String, Option, none, some, arith, if◌then◌else◌,
}
use load_test_server.Result.{Result, Exec, Held}
use load_test_server.Error.{ServerError}
use load_test_server.Session.{Session, SessionState}
use load_test_server.Session.Lifecycle.{Op, next, call_op, call_op-Ends, Ends}
use load_test_server.Data.{Server, lookup, write, call_session}
use load_test_server.Data.Laws.{lookup-write, call_session_cases}
use load_test_server.External.Platform.{Platform}

-- the state where the life cycle allows none next
abbrev or_stay : SessionState → Option SessionState → SessionState
or_stay a none = a
or_stay a (some b) = b

-- what start or stop makes of the session under an id
abbrev pub after : Op → Option SessionState → Option SessionState
after op none = none
after op (some a) = some (or_stay a (next op a))

module _ ⦃P : Platform⦄ where
  open P use {World, by_name}
  open by_name use {get-insert_self}

  abbrev pub state_of : Option Session → Option SessionState
  state_of none = none
  state_of (some x) = some x.state

  -- what a client can tell of a session: whether it is there, and in which state
  abbrev pub view : String → Server → Option SessionState
  view id s = state_of (lookup id s)

  pub view-write :
      (id j : String) (x : Session) (w : World) (s : Server)
      → view j (write id x w s) ≡ (if str_eq id j then some x.state else view j s)
  view-write id j x w s = ground (arith, lookup-write id x w s j)

  pub view-write_self :
      (id : String) (x : Session) (w : World) (s : Server) → view id (write id x w s) ≡ some x.state
  view-write_self id x w s = ap state_of (get-insert_self s.item.sessions id x)

  -- a method that leaves the state alone
  pub view-call_session :
      {A : Type 0} (id j : String) (method : Exec (Held Session World) ServerError A) (s : Server)
      → ((x : Session) → (method (record { item = x; world = s.world })).1.item.state ≡ x.state)
      → view j (call_session id method s).1 ≡ view j s
  view-call_session id j method s keep = elim (call_session_cases id method s) [
    | inl (missing, e) ↦ rw e refl
    | inr (x, found, e) ↦ rw e (rw (view-write id j) (keep_view x found))
  ]
    where
      keep_view :
          (x : Session)
          → lookup id s ≡ some x
          → (if str_eq id j
              then some (method (record { item = x; world = s.world })).1.item.state
              else view j s)
            ≡ view j s
      keep_view x found = ground (arith, keep x, eq_iff id j, found)

  call_op-stay :
      (op : Op) (x : Session) (w : World)
      → (let t = (call_op op (record { item = x; world = w })).1 in
          t.item.state ≡ or_stay x.state (next op x.state))
  call_op-stay op x w =
      go (next op x.state) (call_op op (record { item = x; world = w }))
        (call_op-Ends op (record { item = x; world = w }))
    where
      go :
          (o : Option SessionState) (r : Result ServerError (Unit {0}) × Held Session World)
          → Ends op o (record { item = x; world = w }) r
          → r.1.item.state ≡ or_stay x.state o
      go none r ends =
          ap (λ (r : Result ServerError (Unit {0}) × Held Session World). r.1.item.state) ends
      go (some b) r ends = ends.1

  -- start or stop, on the session under an id
  pub view-call_op :
      (op : Op) (id : String) (s : Server)
      → view id (call_session id (call_op op) s).1 ≡ after op (view id s)
  view-call_op op id s = elim (call_session_cases id (call_op op) s) [
    | inl (missing, e) ↦ rw (e, missing) refl
    | inr (x, found, e) ↦
        let t = (call_op op (record { item = x; world = s.world })).1 in
        rw (e, found) (view-write_self id t.item t.world s ∙ ap some (call_op-stay op x s.world))
  ]
