-- ===== src/Tests/Answers.antt =====
-- What clients are answered on a concrete platform.
use load_test_server.Prelude.{◌≡◌, refl, some, none, Option, List, [], ◌∷◌, length, arith}
use load_test_server.Result.{ok}
use load_test_server.PeerConnection.{PeerConnectionManager, not_sending, not_receiving}
use load_test_server.PeerConnection
use load_test_server.PeerConnection.Media.{file_video_source}
use load_test_server.WebrtcPool
use load_test_server.WebrtcPool.{fill, new_items, new_item}
use load_test_server.WebrtcPool.Create.{
  create_peer_connection_manager, min_by_count, least_from, lesser, fetch_add,
}
use load_test_server.Session
use load_test_server.Session.{Session, created, add_peer_connection}
use load_test_server.Data
use load_test_server.Data.{lookup, get_session, call_session, add_session}
use load_test_server.Stats.{WebrtcSessionStats}
use load_test_server.Handlers.Sessions
use load_test_server.Handlers.PeerConnections
use load_test_server.Handlers.PeerConnections.{make_peer_connection, store_made}
use load_test_server.Handlers.Stats.{Describes}
use load_test_server.System.{Request, create_session, create_peer_connection, add_track, handle}
use load_test_server.System.Interleaved.{Point, request, task, enter, launch, interleave, move}
use load_test_server.System.Interleaved.Answers.{get_stats-interleave, handle-interleave-ok}
use load_test_server.System.Interleaved.{Process}
use load_test_server.System.Interleaved.Created.{Unused, create_session-interleave-get_stats}
use load_test_server.Tests.Interleaved.{others, b_is_other}
use load_test_server.Tests.{toy}
use load_test_server.Tests.Sessions.{session, connection}
use load_test_server.Tests.Servers.{server, create_a, connect_r, stats_a}
use load_test_server.Tests.UnitTests.{negotiates}
open toy use {by_name}
open by_name use {get, entries}

abbrev points : List Point
points =
    request (create_session create_a)
    ∷ request (create_peer_connection connect_r)
    ∷ task (enter "a")
    ∷ []

abbrev session_or : Option Session → Session
session_or none = session 2 created
session_or (some x) = x

abbrev reached : Session
reached = session_or (lookup "a" (interleave points (launch 5)).server)

abbrev connection_or : Option PeerConnectionManager → PeerConnectionManager
connection_or none = connection "r" (not_sending 0) (not_receiving 0)
connection_or (some pc) = pc

abbrev connected : PeerConnectionManager
connected = connection_or (get reached.peer_connections "r")

reached_there :
    (lookup "a" (interleave points (launch 5)).server ≡ some reached)
    × (length (entries reached.peer_connections) ≡ 1)
    × (get reached.peer_connections "r" ≡ some connected)
unfolding interleave move launch handle Data.new Sessions.create_session Session.new
    file_video_source WebrtcPool.new fill new_items new_item add_session
    PeerConnections.create_peer_connection get_session call_session make_peer_connection store_made
    create_peer_connection_manager min_by_count least_from lesser fetch_add PeerConnection.new
    add_peer_connection
reached_there = (refl, refl, refl)

get_stats-interleave_example :
    (reply : WebrtcSessionStats) × ((Sessions.get_stats stats_a
        (interleave points (launch 5)).server).0
      ≡ ok (record { session = some reply }))
    × Describes reached reply
get_stats-interleave_example =
    get_stats-interleave 5 points stats_a reached reached_there.0 (omega (arith, reached_there.1))

abbrev track_r : Request
track_r =
    add_track
      (record { session_id = "a"; peer_connection_id = "r"; track_id = "t"; track_label = "label" })

handle-interleave-ok_example : (handle track_r (interleave points (launch 5)).server).0 ≡ ok tt
handle-interleave-ok_example =
    handle-interleave-ok negotiates 5 points track_r reached connected
      (record { found = reached_there.0; present = reached_there.2 })

abbrev process : Process
process = record { server = server 2; collector = some (record { elapsed = 1; visiting = none }) }

made_a : (Sessions.create_session create_a process.server).0 ≡ ok (record { session_id = "a" })
unfolding Sessions.create_session Session.new file_video_source WebrtcPool.new fill new_items
    new_item add_session
made_a = refl

create_session-interleave-get_stats_example :
    let s = (interleave (request (create_session create_a) ∷ others) process).server in
    (reply : WebrtcSessionStats) × ((Sessions.get_stats stats_a s).0
      ≡ ok (record { session = some reply }))
    × Unused create_a reply
create_session-interleave-get_stats_example =
    create_session-interleave-get_stats create_a others process made_a
      (tt, (b_is_other, (tt, (b_is_other, tt))))
