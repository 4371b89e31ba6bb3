-- ===== src/Data/Laws.antt =====
-- src/data.rs: look-ups in the map of sessions after the operations on it.
use text.Mathlib.Text.{◌==◌ as str_eq}
use text.Mathlib.TextEquality.{eq_iff}
use load_test_server.Prelude.{
  ◌≡◌, refl, ◌≢◌, ◌⊎◌, inl, inr, String, none, some, arith, if◌then◌else◌, Option-cases,
}
use load_test_server.Result.{Exec, Held, err}
use load_test_server.Result.Keeps.{Keeps}
use load_test_server.Error.{ServerError, invalid_session_error}
use load_test_server.Session.{Session}
use load_test_server.Data.{Server, lookup, write, get_session, call_session}
use load_test_server.External.Maps.{get-insert_text, every-insert}
use load_test_server.External.Platform.{Platform}

module _ ⦃P : Platform⦄ where
  open P use {World, by_name}

  pub lookup-write :
      (id : String) (x : Session) (w : World) (s : Server) (j : String)
      → lookup j (write id x w s) ≡ (if str_eq id j then some x else lookup j s)
  lookup-write id x w s j = get-insert_text by_name s.item.sessions id j x

  -- every session under its key satisfies Q
  pub record Each (Q : String → Session → Type 0) (s : Server) : Type 0 where
    pub at : (j : String) (x : Session) → lookup j s ≡ some x → Q j x

  -- all sessions but the one under the key are as before
  pub record Frame (id : String) (s t : Server) : Type 0 where
    pub others : (j : String) → id ≢ j → lookup j t ≡ lookup j s

  pub Frame-write :
      (id : String) (x : Session) (w : World) (s : Server) → Frame id s (write id x w s)
  Frame-write id x w s = record {
    others = λ j h. ground (arith, lookup-write id x w s j, eq_iff id j);
  }

  pub Each-write :
      {Q : String → Session → Type 0} (id : String) (x : Session) (w : World) (s : Server)
      → Each Q s
      → Q id x
      → Each Q (write id x w s)
  Each-write id x w s h q = record { at = every-insert by_name s.item.sessions id x h.at q }

  pub Frame-same : (id : String) (s t : Server) → t.item ≡ s.item → Frame id s t
  Frame-same id s t e = record { others = λ j h. cc }

  pub Each-same :
      {Q : String → Session → Type 0} (s t : Server) → t.item ≡ s.item → Each Q s → Each Q t
  Each-same s t e h = record { at = λ j x found. h.at j x (cc) }

  pub Keeps-get_session : (id : String) → Keeps (get_session id)
  unfolding get_session
  Keeps-get_session id = record { same = λ s. ground arith }

  -- A method call fails without the session, and changes nothing; or it is the method on the session,
  -- with what it leaves written back, also if it fails.
  pub call_session_cases :
      {A : Type 0} (id : String) (method : Exec (Held Session World) ServerError A) (s : Server)
      → ((lookup id s ≡ none) × (call_session id method s ≡ (err (invalid_session_error id), s)))
        ⊎ ((x : Session) × (lookup id s ≡ some x)
            × (call_session id method s ≡ (
                let (r, t) = method (record { item = x; world = s.world }) in
                (r, write id t.item t.world s))))
  unfolding call_session
  call_session_cases id method s = elim (Option-cases (lookup id s)) [
    | inl missing ↦ inl (missing, rw (missing, call_session))
    | inr (x, found) ↦ inr (x, found, rw (found, call_session))
  ]

  pub call_session-Frame :
      {A : Type 0} (id : String) (method : Exec (Held Session World) ServerError A) (s : Server)
      → Frame id s (call_session id method s).1
  call_session-Frame id method s = elim (call_session_cases id method s) [
    | inl (missing, e) ↦ rw e (Frame-same id s s refl)
    | inr (x, found, e) ↦ rw e (Frame-write id _ _ s)
  ]

  pub call_session-Each :
      {A : Type 0} {Q : String → Session → Type 0} (id : String)
      (method : Exec (Held Session World) ServerError A) (s : Server)
      → ((x : Session) → Q id x → Q id (method (record { item = x; world = s.world })).1.item)
      → Each Q s
      → Each Q (call_session id method s).1
  call_session-Each id method s keep h = elim (call_session_cases id method s) [
    | inl (missing, e) ↦ rw e h
    | inr (x, found, e) ↦ rw e (Each-write id _ _ s h (keep x (h.at id x found)))
  ]
