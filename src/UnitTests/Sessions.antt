-- ===== src/UnitTests/Sessions.antt =====
-- src/session.rs, src/data.rs: the unit tests of sessions.
use text.Mathlib.Text.{◌==◌ as str_eq}
use load_test_server.Prelude.{Bool, true, false, String, List, [], ◌∷◌}
use load_test_server.Result.{
  Exec, Result, ok, err, panic, pure, call, unwrap, unwrap_some, ◌>>=◌, ◌>>◌,
}
use load_test_server.Error.{ServerError}
use load_test_server.Log.{LogLevel}
use load_test_server.Session
use load_test_server.Session.{
  Session, started, stopped, same_state, add_peer_connection, get_peer_connection,
  export_peer_connection_stats,
}
use load_test_server.Data
use load_test_server.Data.{Data, add_session, get_session}
use load_test_server.Stats.{get_stats}
use load_test_server.UnitTests.{on_held, check}
use load_test_server.UnitTests.Connections.{Test, new_peer_connection}
use load_test_server.External.Platform.{Platform}

-- `is_ok`
abbrev is_ok : {E A : Type 0} → Result E A → Bool
is_ok (ok _) = true
is_ok (err _) = false
is_ok panic = false

module _ ⦃P : Platform⦄ where
  open P use {World, by_name, nanoid, tracing_init}
  open by_name use {get}

  unfoldable pub new_session : Exec World ServerError (String × Data)
  unfolding Session.new Data.new add_session
  new_session = do
    id ← call nanoid
    session ← unwrap (Session.new id "New Session" 1 LogLevel.none)
    (added, store) ← unwrap (on_held (add_session session) Data.new)
    pure (session.id, store)

  unfoldable pub it_adds_a_session : Test
  unfolding new_session
  it_adds_a_session = do
    (session_id, store) ← new_session
    session ← unwrap_some (get store.sessions session_id)
    check (str_eq session_id session.id)

  -- the first lines of the tests that start a session
  abbrev pub started_session : Exec World ServerError Session
  started_session = do
    (session_id, store) ← new_session
    session ← unwrap_some (get store.sessions session_id)
    (done, after) ← unwrap (on_held Session.start session)
    pure after

  unfoldable pub it_starts_a_session : Test
  unfolding new_session Session.start
  it_starts_a_session = do session ← started_session; check (same_state started session.state)

  unfoldable pub it_stops_a_session : Test
  unfolding new_session Session.start Session.stop
  it_stops_a_session = do
    session ← started_session
    (done, after) ← unwrap (on_held Session.stop session)
    check (same_state stopped after.state)

  unfoldable pub it_gets_stats : Test
  unfolding new_session Session.start get_stats
  it_gets_stats = do
    session ← started_session
    stats ← call (get_stats session)
    check (is_ok stats)

  unfoldable pub it_creates_a_peer_connection : Test
  unfolding new_session Session.start new_peer_connection add_peer_connection
  it_creates_a_peer_connection = do
    unwrap tracing_init
    session ← started_session
    (pc, pool, source) ← new_peer_connection
    let after = add_peer_connection pc session
    found ← unwrap_some (get after.peer_connections pc.id)
    check (str_eq found.id pc.id)

  -- src/data.rs
  unfoldable pub it_adds_and_gets_a_session : Test
  unfolding new_session get_session
  it_adds_and_gets_a_session = do
    (session_id, store) ← new_session
    (added_session, store') ← unwrap (on_held (get_session session_id) store)
    check (str_eq session_id added_session.id)

  abbrev pub tests : List Test
  tests =
      it_adds_a_session ∷ it_starts_a_session ∷ it_stops_a_session ∷ it_gets_stats
      ∷ it_creates_a_peer_connection ∷ it_adds_and_gets_a_session ∷ []
