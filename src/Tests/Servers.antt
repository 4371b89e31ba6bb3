-- ===== src/Tests/Servers.antt =====
-- Concrete servers and requests.
use load_test_server.Prelude.{ℕ, ◌≡◌, refl, String, none, some, List, [], ◌∷◌, arith}
use load_test_server.Result.{ok, err}
use load_test_server.Error.{internal, invalid_session_error, status_from}
use load_test_server.WebrtcPool.Create.{create_peer_connection_manager}
use load_test_server.External.Maps.{every-insert}
use load_test_server.PeerConnection
use load_test_server.PeerConnection.{
  PeerConnectionManager, sending, not_sending, not_receiving, webrtc,
}
use load_test_server.PeerConnection.New.{IsNew}
use load_test_server.Session.{Session, created, started}
use load_test_server.Session.Valid.{IsServed, IsValid}
use load_test_server.Data.{Server}
use load_test_server.Data.Laws.{Frame}
use load_test_server.Handlers.PeerConnections
use load_test_server.Handlers.PeerConnections.{find}
use load_test_server.Handlers.Observer
use load_test_server.Handlers.Found.{create_peer_connection-find}
use load_test_server.System.{
  create_offer, Request, create_session, start_session, stop_session, create_peer_connection, Event,
  request, tick, handle, System, main, step, run,
}
use load_test_server.System.Invariant.{handle-Frame}
use load_test_server.System.Errors.{handle_missing, handle_absent}
use load_test_server.System.Collector.{run-tick_zero}
use load_test_server.System.Lifecycle.{view}
use load_test_server.System.History.{replay, trace, view-step, view-run-main}
use load_test_server.Webrtc.{
  CreateSessionRequest, StartSessionRequest, GetStatsRequest, CreatePeerConnectionRequest,
  ObserverRequest,
}
use load_test_server.Tests.{toy}
use load_test_server.Tests.Sessions.{session, connection}
open toy use {by_name, by_id, create_video_track}
open by_name use {get}
open by_id use {get as get_factory}

-- a server with one session
abbrev pub server : ℕ → Server
server polling_state_s = record {
  item = record { sessions = ("a", session polling_state_s created) ∷ [] };
  world = 5;
}

abbrev pub system : ℕ → System
system polling_state_s = record { server = server polling_state_s; collector = some 1 }

abbrev pub create_a : CreateSessionRequest
create_a = record { session_id = "a"; name = "A"; polling_state_s = 2; log_level = 3 }

abbrev pub start_a : StartSessionRequest
start_a = record { session_id = "a" }

abbrev pub connect_r : CreatePeerConnectionRequest
connect_r = record { session_id = "a"; peer_connection_id = "r"; name = "R" }

abbrev pub observe_p : ObserverRequest
observe_p = record { session_id = "a"; peer_connection_id = "p" }

abbrev pub history : List Event
history =
    request (create_session create_a)
    ∷ request (start_session start_a)
    ∷ request (create_peer_connection connect_r)
    ∷ tick
    ∷ request (stop_session (record { session_id = "a" }))
    ∷ []

view-run-main_example :
    view "a" (run history (main 5)).server ≡ replay "a" (trace history (main 5)) none
view-run-main_example = view-run-main history "a" 5

view-step_example :
    view "a" (step (request (start_session start_a)) (system 2)).server ≡ some started
view-step_example = view-step (request (start_session start_a)) "a" (system 2)

run-tick_zero_example : (run (tick ∷ history) (system 0)).collector ≡ none
run-tick_zero_example = run-tick_zero (system 0) "a" (session 0 created) history refl refl

handle-Frame_example : Frame "a" (server 2) (handle (create_session create_a) (server 2)).1
handle-Frame_example = handle-Frame (create_session create_a) (server 2)

handle_missing_example :
    handle (start_session (record { session_id = "b" })) (server 2)
    ≡ (err (status_from (invalid_session_error "b")), server 2)
handle_missing_example =
    handle_missing (start_session (record { session_id = "b" })) (server 2) refl refl

pub observed : (Observer.observer observe_p (server 2)).0 ≡ ok (100, 100)
unfolding Observer.observer
observed = refl

pub connected : (PeerConnections.create_peer_connection connect_r (server 2)).0 ≡ ok tt
unfolding PeerConnections.create_peer_connection create_peer_connection_manager PeerConnection.new
connected = refl

create_peer_connection-find_example :
    let t = (PeerConnections.create_peer_connection connect_r (server 2)).1 in
    (x : Session) × (pc : PeerConnectionManager) × (pool_id : ℕ) × (find "a" "r" t
      ≡ (ok (x, pc), t))
    × IsNew "r" pool_id pc
create_peer_connection-find_example = create_peer_connection-find connect_r (server 2) connected

all-IsServed :
    (pc_id : String) (pc : PeerConnectionManager)
    → get (session 2 created).peer_connections pc_id ≡ some pc
    → IsServed (session 2 created).webrtc_pool pc_id pc
all-IsServed =
    every-insert by_name (("p", connection "p" (sending 5) (not_receiving 0)) ∷ []) "q" _
      (every-insert by_name [] "p" _ (λ j x found. absurd (ground (arith, found)))
        (record { same_id = refl; has_factory = refl; paired = refl }))
      (record { same_id = refl; has_factory = refl; paired = refl })

session-IsValid : IsValid "a" (session 2 created)
session-IsValid = record {
  same_id = refl;
  timed = record { start_known = refl; stop_known = refl };
  served = all-IsServed;
}

abbrev pub stats_a : GetStatsRequest
stats_a = record { session_id = "a" }

abbrev offer_z : Request
offer_z = create_offer (record { session_id = "a"; peer_connection_id = "z" })

handle_absent_example :
    handle offer_z (server 2)
    ≡ (err (internal "PeerConnection Peer connection z not found does not exist"), server 2)
handle_absent_example = handle_absent offer_z (server 2) (session 2 created) refl refl refl
