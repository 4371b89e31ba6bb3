-- ===== src/Tests/Exchange.antt =====
-- A concrete offer that is passed on.
use load_test_server.Prelude.{◌≡◌, refl, true}
use load_test_server.Result.{ok}
use load_test_server.PeerConnection.{PeerConnectionManager, sending, not_sending, not_receiving}
use load_test_server.Session.{created}
use load_test_server.Handlers.PeerConnections.{find, create_offer, set_remote_description}
use load_test_server.Handlers.Exchange.{an_offer, remote, passed_on, create-set}
use load_test_server.Webrtc.{CreateSdpRequest, CreateSdpResponse}
use load_test_server.Tests.{toy}
use load_test_server.Tests.Sessions.{session, connection}
use load_test_server.Tests.Servers.{server}

abbrev offer_p : CreateSdpRequest
offer_p = record { session_id = "a"; peer_connection_id = "p" }

abbrev q : PeerConnectionManager
q = connection "q" (not_sending 0) (not_receiving 3)

found_p :
    find "a" "p" (server 2)
    ≡ (ok (session 2 created, connection "p" (sending 5) (not_receiving 0)), server 2)
unfolding find
found_p = refl

found_q : find "a" "q" (server 2) ≡ (ok (session 2 created, q), server 2)
unfolding find
found_q = refl

create-set_example :
    (reply : CreateSdpResponse) × (create_offer offer_p (server 2) ≡ (ok reply, server 2))
    × (set_remote_description (passed_on reply "a" "q") (server 2)
        ≡ (ok (record { session_id = "a"; peer_connection_id = "q"; success = true }), server 2))
create-set_example =
    create-set an_offer remote offer_p (server 2) (server 2) (session 2 created) (session 2 created)
      (connection "p" (sending 5) (not_receiving 0)) q "offer" "offer" 5 5 5 "a" "q" found_p refl
      found_q refl refl
