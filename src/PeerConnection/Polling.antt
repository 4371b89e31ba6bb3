-- ===== src/PeerConnection/Polling.antt =====
-- src/peer_connection.rs: the send and receive state, and the export of statistics that polls it.
pub mod History
pub mod Same
use load_test_server.Prelude.{ℕ, Bool, String, List, [], ◌∷◌, ltb, if◌then◌else◌}
use load_test_server.Result.{Exec, Held, ok, on_world, fallible, pure, ◌>>=◌}
use load_test_server.Error.{ServerError, server_error_from}
use load_test_server.Metrics.{write_video_rx_stats, write_video_tx_stats}
use load_test_server.PeerConnection.{
  PeerConnectionManager, PeerConnectionState, VideoSendState, sending, not_sending,
  VideoReceiveState, receiving, not_receiving, last_bytes_sent, last_bytes_received, webrtc,
}
use load_test_server.External.Types.{VideoReceiverStats, VideoSenderStats, PeerConnectionStats}
use load_test_server.External.Platform.{Platform}

module _ ⦃P : Platform⦄ where
  open P use {World, Number, webrtc_get_stats}

  -- `_get_stats`
  unfoldable pub get_stats :
      PeerConnectionManager → Exec World ServerError (List (VideoSenderStats Number))
  unfolding server_error_from
  get_stats pc = do
    stats ← webrtc (fallible (webrtc_get_stats pc.webrtc_peer_connection))
    pure stats.video_sender_stats

  unfoldable pub is_sending : PeerConnectionManager → ℕ → Bool
  is_sending pc bytes_sent = ltb (last_bytes_sent pc.state.video_send) bytes_sent

  unfoldable pub set_send_state :
      VideoSenderStats Number → PeerConnectionManager → PeerConnectionManager
  unfolding is_sending
  set_send_state stat pc = record pc {
    state = record (pc.state) {
      video_send =
          if is_sending pc stat.bytes_sent
          then sending stat.bytes_sent
          else not_sending stat.bytes_sent;
    };
  }

  unfoldable pub is_receiving : PeerConnectionManager → ℕ → Bool
  is_receiving pc bytes_received = ltb (last_bytes_received pc.state.video_receive) bytes_received

  unfoldable pub set_receive_state :
      VideoReceiverStats Number → PeerConnectionManager → PeerConnectionManager
  unfolding is_receiving
  set_receive_state stat pc = record pc {
    state = record (pc.state) {
      video_receive =
          if is_receiving pc stat.bytes_received
          then receiving stat.bytes_received
          else not_receiving stat.bytes_received;
    };
  }

  -- the two loops of `export_stats`
  unfoldable pub export_receivers :
      String
      → String
      → Bool
      → List (VideoReceiverStats Number)
      → Held PeerConnectionManager World
      → Held PeerConnectionManager World
  export_receivers pc_id session_id poll [] s = s
  export_receivers pc_id session_id poll (stat ∷ stats) s =
      export_receivers pc_id session_id poll stats (record {
        item = if poll then set_receive_state stat s.item else s.item;
        world = write_video_rx_stats stat pc_id session_id s.world;
      })

  unfoldable pub export_senders :
      String
      → String
      → Bool
      → List (VideoSenderStats Number)
      → Held PeerConnectionManager World
      → Held PeerConnectionManager World
  export_senders pc_id session_id poll [] s = s
  export_senders pc_id session_id poll (stat ∷ stats) s =
      export_senders pc_id session_id poll stats (record {
        item = if poll then set_send_state stat s.item else s.item;
        world = write_video_tx_stats stat pc_id session_id s.world;
      })

  unfoldable pub export_lists :
      String
      → String
      → Bool
      → PeerConnectionStats Number
      → Exec (Held PeerConnectionManager World) ServerError (Unit {0})
  unfolding export_receivers export_senders
  export_lists pc_id session_id poll stats s = (
    ok tt,
    export_senders pc_id session_id poll stats.video_sender_stats
        (export_receivers pc_id session_id poll stats.video_receiver_stats s),
  )

  unfoldable pub export_stats :
      String → Bool → Exec (Held PeerConnectionManager World) ServerError (Unit {0})
  unfolding server_error_from
  export_stats session_id should_poll_state s =
      (on_world (webrtc (fallible (webrtc_get_stats s.item.webrtc_peer_connection)))
          >>= export_lists s.item.id session_id should_poll_state)
        s
