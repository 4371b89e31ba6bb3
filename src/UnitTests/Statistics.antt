-- ===== src/UnitTests/Statistics.antt =====
-- src/stats.rs: the unit test of the statistics of a session.
use load_test_server.Prelude.{◌==◌}
use load_test_server.Result.{call, unwrap, ◌>>=◌, ◌>>◌}
use load_test_server.Session
use load_test_server.Session.{Session}
use load_test_server.Stats.{get_stats}
use load_test_server.UnitTests.{on_held, check}
use load_test_server.UnitTests.Connections.{Test}
use load_test_server.UnitTests.Sessions.{started_session, new_session}
use load_test_server.External.Platform.{Platform}

module _ ⦃P : Platform⦄ where
  open P use {World, sleep}

  -- the test from the first pause on, with the started session
  unfoldable pub pause_and_stop : Session → Test
  unfolding get_stats Session.stop
  pause_and_stop session = do
    call (λ w. (tt, sleep 1000 w))
    stats ← unwrap (get_stats session)
    check (1 == stats.session.elapsed_time)
    call (λ w. (tt, sleep 1000 w))
    (done, session) ← unwrap (on_held Session.stop session)
    stats ← unwrap (get_stats session)
    check (2 == stats.session.elapsed_time)

  unfoldable pub it_gets_stats : Test
  unfolding pause_and_stop new_session Session.start
  it_gets_stats = do session ← started_session; pause_and_stop session
