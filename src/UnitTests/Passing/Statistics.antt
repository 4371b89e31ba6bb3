-- ===== src/UnitTests/Passing/Statistics.antt =====
-- src/stats.rs: the unit test of the statistics of a session, with a clock that pauses move.
use load_test_server.Prelude.{ℕ, ◌+◌, ◌*◌, ◌≤◌, ◌<◌, ◌≡◌, refl, ap, some, arith}
use load_test_server.Result.{ok}
use load_test_server.Result.Ends.{Ends-Succeeds, Ends-bind}
use load_test_server.Result.Succeeds.{Succeeds}
use load_test_server.Helpers.{elapsed, nanos_per_sec}
use load_test_server.Session
use load_test_server.Session.{Session, started, elapsed_time}
use load_test_server.Stats.{get_stats, session_stats}
use load_test_server.UnitTests.Sessions.{started_session}
use load_test_server.UnitTests.Statistics.{pause_and_stop, it_gets_stats}
use load_test_server.UnitTests.Passing.Sessions.{started_session-IsStarted}
use load_test_server.External.Reliable.{Reliable}
use load_test_server.External.Platform.{Platform}

elapsed_whole :
    (n a b : ℕ)
    → a + n * nanos_per_sec ≤ b
    → b < a + n * nanos_per_sec + nanos_per_sec
    → elapsed (some a) (some b) ≡ some n
unfolding elapsed
elapsed_whole n a b low high = ground arith

module _ ⦃P : Platform⦄ where
  open P use {World, now, sleep}

  -- a pause of a second takes a second at least, and less than half a second more, by the clock
  pub record Punctual : Type 0 where
    pub not_early : (w : World) → (now w).0 + 1_000_000_000 ≤ (now (sleep 1000 (now w).1)).0
    pub not_late : (w : World) → (now (sleep 1000 (now w).1)).0 < (now w).0 + 1_500_000_000

  first_second :
      Punctual
      → (w : World) → elapsed (some (now w).0) (some (now (sleep 1000 (now w).1)).0) ≡ some 1
  first_second punctual w =
      elapsed_whole 1 (now w).0 (now (sleep 1000 (now w).1)).0 (punctual.not_early w)
        (omega (arith, punctual.not_late w))

  two_seconds :
      Punctual
      → (w : World)
      → elapsed (some (now w).0) (some (now (sleep 1000 (now (sleep 1000 (now w).1)).1)).0) ≡ some 2
  two_seconds punctual w =
      let v = sleep 1000 (now w).1 in
      elapsed_whole 2 (now w).0 (now (sleep 1000 (now v).1)).0
        (omega (arith, punctual.not_early w, punctual.not_early v))
        (omega (arith, punctual.not_late w, punctual.not_late v))

  pause_and_stop-ok :
      (session : Session) (w : World)
      → Punctual
      → session.state ≡ started
      → session.start_time ≡ some (now w).0
      → (pause_and_stop session (now w).1).0 ≡ ok tt
  unfolding pause_and_stop get_stats session_stats elapsed_time Session.stop
  pause_and_stop-ok session w punctual is_started start_time =
      rw (is_started, start_time, first_second punctual w, two_seconds punctual w) refl

  -- The unit test of stats.rs passes in every state of the world, so the elapsed time is 1 after the
  -- first pause of a second and 2 when the session is stopped after the second, if no call of
  -- libwebrtc fails that making a session needs and a pause of a second ends less than half a
  -- second late.
  pub it_gets_stats-Succeeds : Reliable → Punctual → Succeeds it_gets_stats
  unfolding it_gets_stats
  it_gets_stats-Succeeds reliable punctual = Ends-Succeeds {Q = λ _ _. Unit} it_gets_stats (λ w.
      Ends-bind started_session _ w (started_session-IsStarted reliable w) (λ session t s.
        rw s.moment (record {
          result = tt;
          after = (pause_and_stop session (now s.before).1).1;
          runs =
              ap (λ r. (r, (pause_and_stop session (now s.before).1).1))
                (pause_and_stop-ok session s.before punctual s.is_started s.start_time);
          holds = tt;
        })))
