-- ===== src/Tests/Works.antt =====
-- A concrete client that makes a session and a connection.
use load_test_server.Prelude.{◌≡◌, refl, arith}
use load_test_server.Result.{ok}
use load_test_server.Result.Succeeds.{Succeeds-pure}
use load_test_server.Handlers.Sessions.{create_session}
use load_test_server.Handlers.PeerConnections.{create_peer_connection}
use load_test_server.Handlers.Works.{create_session-create_peer_connection}
use load_test_server.External.Reliable.{Reliable}
use load_test_server.Tests.{toy}
use load_test_server.Tests.Servers.{server, create_a, connect_r}

pub reliable : Reliable
reliable = record {
  pool_created = Succeeds-pure (0, 0);
  encoder_created = λ tx. Succeeds-pure 0;
  factory_created = λ f e. Succeeds-pure 0;
  producer_made = λ fps. Succeeds-pure 0;
  producer_started = λ p. Succeeds-pure 0;
  frame_received = λ rx w. refl;
  frame_pushed = λ writer frame. Succeeds-pure tt;
  connection_made = λ f states candidates tracks. Succeeds-pure 7;
}

create_session-create_peer_connection_example :
    let (a, t) = create_session create_a (server 2) in
    (a ≡ ok (record { session_id = "a" })) × ((create_peer_connection connect_r t).0 ≡ ok tt)
create_session-create_peer_connection_example =
    create_session-create_peer_connection reliable create_a "r" "R" (server 2) (λ w. omega arith)
