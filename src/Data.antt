-- ===== src/Data.antt =====
-- src/data.rs: the sessions of the server, keyed by id. The server's state is this map beside the
-- world; a handler holds its reference into the map until it ends, so it is one step.
pub mod Laws
use load_test_server.Prelude.{String, Option, none, some}
use load_test_server.Result.{Exec, Held, ok, err}
use load_test_server.Error.{ServerError, invalid_session_error}
use load_test_server.Session.{Session, drop}
use load_test_server.External.Platform.{Platform}

module _ ⦃P : Platform⦄ where
  open P use {World, by_name}
  open by_name use {Map, empty, insert, get}

  pub record Data : Type 0 where
    pub sessions : Map Session

  abbrev pub Server : Type 0
  Server = Held Data World

  unfoldable pub new : Data
  new = record { sessions = empty }

  abbrev pub lookup : String → Server → Option Session
  lookup id s = get s.item.sessions id

  -- write through a reference into the map
  abbrev pub write : String → Session → World → Server → Server
  write id session w s = record {
    item = record { sessions = insert s.item.sessions id session };
    world = w;
  }

  abbrev pub drop_old : Option Session → World → World
  drop_old none w = w
  drop_old (some old) w = drop old w

  -- the session that `insert` replaces is dropped
  unfoldable pub add_session : Session → Exec Server ServerError (Unit {0})
  unfolding drop
  add_session session s =
      (ok tt, write session.id session (drop_old (lookup session.id s) s.world) s)

  unfoldable pub get_session : String → Exec Server ServerError Session
  get_session id s = elim (lookup id s) [
    | none ↦ (err (invalid_session_error id), s)
    | some session ↦ (ok session, s)
  ]

  -- src/session.rs: the macro call_session!, a method on a mutable reference
  unfoldable pub call_session :
      {A : Type 0} → String → Exec (Held Session World) ServerError A → Exec Server ServerError A
  call_session id method s = elim (lookup id s) [
    | none ↦ (err (invalid_session_error id), s)
    | some session ↦
        let (r, t) = method (record { item = session; world = s.world }) in
        (r, write id t.item t.world s)
  ]
