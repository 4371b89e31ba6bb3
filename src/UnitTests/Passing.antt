-- ===== src/UnitTests/Passing.antt =====
-- src/peer_connection.rs: the unit tests of peer connections when libwebrtc does not fail.
pub mod Statistics
pub mod Sessions
use load_test_server.Prelude.{◌≡◌, refl, ap, String, Option, none, some, Bool, true, is_some}
use load_test_server.Result.{ok, unwrap_some, call, pure, unwrap, fallible, on_world, ◌>>=◌, ◌>>◌}
use load_test_server.Result.Ends.{Ends, Ends-Succeeds, Succeeds-bind_given}
use load_test_server.Result.Succeeds.{
  Succeeds, succeeds_rules, Succeeds-call, Succeeds-pure, Succeeds-bind, Succeeds-unwrap,
  Succeeds-unwrap_call,
}
use load_test_server.Error.{ServerError}
use load_test_server.WebrtcPool.{WebrtcPool}
use load_test_server.PeerConnection.{
  PeerConnectionManager, create_offer, create_answer, take_ice_candidates_rx, webrtc,
  set_local_description, set_remote_description,
}
use load_test_server.PeerConnection.Media.{
  file_video_source, create_track, add_track, add_transceiver,
}
use load_test_server.PeerConnection.Polling.{set_send_state, get_stats, export_stats, export_lists}
use load_test_server.Session.Made.{file_video_source-Succeeds}
use load_test_server.UnitTests.{on_held, with_item}
use load_test_server.UnitTests.Connections.{
  Test, Source, new_peer_connection, it_sets_sending_state,
}
use load_test_server.UnitTests.Ready.{IsReady, new_peer_connection-IsReady}
use load_test_server.External.Types.{SdpType, PeerConnectionStats}
use load_test_server.External.Reliable.{Reliable}
use load_test_server.External.Platform.{Platform}

module _ ⦃P : Platform⦄ where
  open P use {World, Number}

  module _ (reliable : Reliable) where
    -- a test that begins with a new connection
    with_connection :
        (rest : PeerConnectionManager × WebrtcPool × Source → Test)
        → ((made : PeerConnectionManager × WebrtcPool × Source)
            → IsReady made
            → Succeeds (rest made))
        → Succeeds (new_peer_connection >>= rest)
    with_connection rest h =
        Succeeds-bind_given new_peer_connection rest (new_peer_connection-IsReady reliable)
          (λ made t. h made)

    pub it_sets_sending_state-Succeeds : (zero : Number) → Succeeds (it_sets_sending_state zero)
    unfolding it_sets_sending_state set_send_state
    it_sets_sending_state-Succeeds zero =
        with_connection _ (λ made ready. rw ready.silent (search succeeds_rules))
