-- ===== src/Tests/Interleaved.antt =====
-- Concrete histories of requests and steps of the metrics task.
use text.Mathlib.TextEquality.{eq_iff}
use load_test_server.Prelude.{
  String, ◌≡◌, ◌≢◌, refl, true, is_some, none, some, List, [], ◌∷◌, arith,
}
use load_test_server.Result.{ok, err}
use load_test_server.Error.{internal_error, status_from}
use load_test_server.Session.Valid.{IsValid}
use load_test_server.Data.Laws.{Each}
use load_test_server.Handlers.Observer
use load_test_server.System.{
  create_session, start_session, stop_session, create_peer_connection, observer, main, run,
}
use load_test_server.System.Lifecycle.{view}
use load_test_server.System.History.{replay}
use load_test_server.System.Interleaved.{
  Point, request, task, enter, export, leave, finish, Process, launch, interleave,
}
use load_test_server.System.Interleaved.Coarse.{process_of, schedule, run-main-interleave}
use load_test_server.System.Interleaved.History.{point_trace, view-interleave-launch}
use load_test_server.System.Interleaved.Polled.{interleave-launch-is_some}
use load_test_server.System.Interleaved.Observed.{observer_once-interleave}
use load_test_server.System.Interleaved.Valid.{interleave-launch-IsValid}
use load_test_server.Session.{Session, created}
use load_test_server.Session.Kept.{Kept}
use load_test_server.Data.{lookup}
use load_test_server.System.Interleaved.Isolated.{interleave-Kept}
use load_test_server.Tests.Sessions.{session}
use load_test_server.PeerConnection.{PeerConnectionManager}
use load_test_server.Handlers.PeerConnections.{find}
use load_test_server.System.Interleaved.Lasting.{interleave-find}
use load_test_server.Tests.{toy}
use load_test_server.Tests.Servers.{
  server, create_a, start_a, connect_r, observe_p, history, observed, connected,
}

-- a session is started and stopped while the task is in it
abbrev points : List Point
points =
    request (create_session create_a)
    ∷ task (enter "a")
    ∷ request (create_peer_connection connect_r)
    ∷ task (export "r")
    ∷ request (start_session start_a)
    ∷ task leave
    ∷ task finish
    ∷ task (enter "a")
    ∷ request (stop_session (record { session_id = "a" }))
    ∷ []

run-main-interleave_example :
    interleave (schedule history (main 5)) (launch 5) ≡ process_of (run history (main 5))
run-main-interleave_example = run-main-interleave history 5

view-interleave-launch_example :
    view "a" (interleave points (launch 5)).server ≡ replay "a" (point_trace points (launch 5)) none
view-interleave-launch_example = view-interleave-launch points "a" 5

interleave-launch-IsValid_example : Each IsValid (interleave points (launch 5)).server
interleave-launch-IsValid_example = interleave-launch-IsValid 5 points

interleave-launch-is_some_example : is_some (interleave points (launch 5)).collector ≡ true
interleave-launch-is_some_example =
    interleave-launch-is_some points 5 (refl, (tt, (tt, (tt, (tt, (tt, (tt, (tt, (tt, tt)))))))))

-- another connection is made, and the task exports the observed one
abbrev between : List Point
between =
    task (enter "a")
    ∷ request (create_peer_connection connect_r)
    ∷ task (export "p")
    ∷ task leave
    ∷ []

abbrev process : Process
process = record { server = server 2; collector = some (record { elapsed = 1; visiting = none }) }

observer_once-interleave_example :
    (Observer.observer observe_p
      (interleave (request (observer observe_p) ∷ between) process).server).0
    ≡ err (status_from (internal_error "video_track_rx already taken"))
observer_once-interleave_example =
    observer_once-interleave observe_p process (100, 100) between observed
      (tt, ((λ same. absurd (ground (arith, (eq_iff "r" "p").1 same.1))), (tt, (tt, tt))))

-- the task exports the session, while another one is made and gets a connection
abbrev pub others : List Point
others =
    task (enter "a")
    ∷ request (create_session (record create_a { session_id = "b" }))
    ∷ task (export "p")
    ∷ request (create_peer_connection (record connect_r { session_id = "b" }))
    ∷ []

pub b_is_other : ◌≢◌ {A = String} "b" "a"
b_is_other same = ground (arith, (eq_iff "b" "a").1 same)

interleave-Kept_example :
    (y : Session) × (lookup "a" (interleave others process).server ≡ some y)
    × Kept (session 2 created) y
interleave-Kept_example =
    interleave-Kept others process "a" (session 2 created)
      (tt, (b_is_other, (tt, (b_is_other, tt)))) refl

-- the session is started while the task exports the new connection
abbrev afterwards : List Point
afterwards =
    task (enter "a") ∷ request (start_session start_a) ∷ task (export "r") ∷ task leave ∷ []

interleave-find_example :
    let s = (interleave (request (create_peer_connection connect_r) ∷ afterwards) process).server in
    (x : Session) × (pc : PeerConnectionManager) × (find "a" "r" s ≡ (ok (x, pc), s))
interleave-find_example =
    interleave-find connect_r afterwards process connected (tt, (tt, (tt, (tt, tt))))
