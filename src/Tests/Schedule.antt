-- ===== src/Tests/Schedule.antt =====
-- Concrete turns of the metrics task.
use load_test_server.Prelude.{true, ◌+◌, ◌≡◌, refl, some, arith, []}
use load_test_server.Session.{created}
use load_test_server.Data.{lookup}
use load_test_server.Data.Laws.{Each}
use load_test_server.System.{System, tick, step, run}
use load_test_server.System.Schedule.Told.{Tells, answers_in, tick-get_stats-Tells}
use load_test_server.Result.{ok}
use load_test_server.Stats.{WebrtcSessionStats}
use load_test_server.Handlers.Sessions.{get_stats}
use load_test_server.System.Collector.{IsPolled}
use load_test_server.System.Schedule.{ticks, export_in}
use load_test_server.System.Schedule.Asked.{in_all, tick-asked}
use load_test_server.Collection.{collect_each}
use load_test_server.System.Schedule.Once.{run-ticks-polled_once}
use load_test_server.External.Maps.{every-insert}
use load_test_server.Tests.{toy}
use load_test_server.Tests.Sessions.{session}
use load_test_server.Tests.Servers.{server, system, stats_a}
open toy use {by_name}
open by_name use {entries}

all-IsPolled : Each IsPolled (server 2)
all-IsPolled = record {
  at =
      every-insert by_name {Q = IsPolled} [] "a" (session 2 created)
        (λ j x found. absurd (ground (arith, found))) refl;
}

run-ticks-polled_once_example :
    (w : toy.World) × (lookup "a" (run (ticks 2) (system 2)).server
      ≡ some (export_in true w (session 2 created)))
run-ticks-polled_once_example =
    run-ticks-polled_once 1 "a" (session 2 created) (system 2) refl (omega arith) all-IsPolled refl

tick-asked_example :
    (step tick (system 2)).server.world
    ≡ 5 + in_all (λ c. 1) (λ w. w) (entries (server 2).item.sessions)
tick-asked_example =
    tick-asked (λ c. 1) (λ w. w)
      (record { question = λ c w. refl; no_question = λ name value tags w. refl }) 1 (system 2) refl
      all-IsPolled

-- both connections have sent and received 10 bytes, which is more than before
tick-get_stats-Tells_example :
    let s : System = record { server = server 2; collector = some 4 } in
    (reply : WebrtcSessionStats) × ((get_stats stats_a (step tick s).server).0
      ≡ ok (record { session = some reply }))
    × Tells (answers_in (session 2 created) (collect_each 4 [] s.server).1.world) reply
tick-get_stats-Tells_example =
    tick-get_stats-Tells 4 stats_a [] [] (session 2 created)
      (record { server = server 2; collector = some 4 }) refl all-IsPolled refl refl refl
      (omega arith)
