-- ===== src/PeerConnection/Polling/History.antt =====
-- src/peer_connection.rs: sequences of polls, and the gauges that an export sends.
use Prim.Native.String.{String}
use load_test_server.Prelude.{
  ◌<◌, ◌≡◌, refl, inr, Bool, true, false, List, [], ◌∷◌, ◌++◌, arith, ltb, if◌then◌else◌,
}
use load_test_server.Result.{Held, ok}
use load_test_server.Metrics.{
  Gauge, rx_gauges, tx_gauges, send_all, write_video_rx_stats, write_video_tx_stats,
}
use load_test_server.PeerConnection.{
  PeerConnectionManager, sending, not_sending, receiving, not_receiving,
}
use load_test_server.PeerConnection.Polling.{
  set_send_state, set_receive_state, export_receivers, export_senders, export_lists, export_stats,
}
use load_test_server.External.Types.{VideoReceiverStats, VideoSenderStats, PeerConnectionStats}
use load_test_server.External.Platform.{Platform}

module _ ⦃P : Platform⦄ where
  open P use {World, Number, webrtc_get_stats}

  -- one poll after the other, the first in the list first
  abbrev pub poll_senders :
      List (VideoSenderStats Number) → PeerConnectionManager → PeerConnectionManager
  poll_senders [] pc = pc
  poll_senders (stat ∷ stats) pc = poll_senders stats (set_send_state stat pc)

  abbrev pub poll_receivers :
      List (VideoReceiverStats Number) → PeerConnectionManager → PeerConnectionManager
  poll_receivers [] pc = pc
  poll_receivers (stat ∷ stats) pc = poll_receivers stats (set_receive_state stat pc)

  -- Whatever was polled before, the send state is that of the last two polls: sending exactly if
  -- bytes_sent grew from the one to the other, with the last bytes_sent kept in it. The receive state
  -- stays as it was.
  pub poll_senders-last_two :
      (history : List (VideoSenderStats Number)) (a b : VideoSenderStats Number)
      (pc : PeerConnectionManager)
      → let pc' = poll_senders (history ++ a ∷ b ∷ []) pc in
        (pc'.state.video_send ≡ (
          if ltb a.bytes_sent b.bytes_sent then sending b.bytes_sent else not_sending b.bytes_sent))
        × (pc'.state.video_receive ≡ pc.state.video_receive)
  unfolding set_send_state
  poll_senders-last_two [] a b pc = ground arith
  poll_senders-last_two (x ∷ history) a b pc =
      poll_senders-last_two history a b (set_send_state x pc)

  -- Whatever was polled before, the receive state is that of the last two polls: receiving exactly if
  -- bytes_received grew from the one to the other, with the last bytes_received kept in it. The send
  -- state stays as it was.
  pub poll_receivers-last_two :
      (history : List (VideoReceiverStats Number)) (a b : VideoReceiverStats Number)
      (pc : PeerConnectionManager)
      → let pc' = poll_receivers (history ++ a ∷ b ∷ []) pc in
        (pc'.state.video_receive ≡ (
          if ltb a.bytes_received b.bytes_received
          then receiving b.bytes_received
          else not_receiving b.bytes_received))
        × (pc'.state.video_send ≡ pc.state.video_send)
  unfolding set_receive_state
  poll_receivers-last_two [] a b pc = ground arith
  poll_receivers-last_two (x ∷ history) a b pc =
      poll_receivers-last_two history a b (set_receive_state x pc)

  abbrev pub all_rx_gauges : String → String → List (VideoReceiverStats Number) → List Gauge
  all_rx_gauges pc_id session_id [] = []
  all_rx_gauges pc_id session_id (stat ∷ stats) =
      rx_gauges stat pc_id session_id ++ all_rx_gauges pc_id session_id stats

  abbrev pub all_tx_gauges : String → String → List (VideoSenderStats Number) → List Gauge
  all_tx_gauges pc_id session_id [] = []
  all_tx_gauges pc_id session_id (stat ∷ stats) =
      tx_gauges stat pc_id session_id ++ all_tx_gauges pc_id session_id stats

  send_all-append :
      (gs hs : List Gauge) (w : World) → send_all (gs ++ hs) w ≡ send_all hs (send_all gs w)
  unfolding send_all
  send_all-append [] hs w = refl
  send_all-append (g ∷ gs) hs w = send_all-append gs hs _

  send_all-nil : (w : World) → send_all [] w ≡ w
  unfolding send_all
  send_all-nil w = refl

  write_video_rx_stats_lem :
      (stat : VideoReceiverStats Number) (pc_id session_id : String) (w : World)
      → write_video_rx_stats stat pc_id session_id w ≡ send_all (rx_gauges stat pc_id session_id) w
  unfolding write_video_rx_stats
  write_video_rx_stats_lem stat pc_id session_id w = refl

  write_video_tx_stats_lem :
      (stat : VideoSenderStats Number) (pc_id session_id : String) (w : World)
      → write_video_tx_stats stat pc_id session_id w ≡ send_all (tx_gauges stat pc_id session_id) w
  unfolding write_video_tx_stats
  write_video_tx_stats_lem stat pc_id session_id w = refl

  export_receivers-eq :
      (pc_id session_id : String) (poll : Bool) (stats : List (VideoReceiverStats Number))
      (s : Held PeerConnectionManager World)
      → export_receivers pc_id session_id poll stats s ≡ record {
        item = if poll then poll_receivers stats s.item else s.item;
        world = send_all (all_rx_gauges pc_id session_id stats) s.world;
      }
  unfolding export_receivers
  export_receivers-eq pc_id session_id true [] s = rw send_all-nil
  export_receivers-eq pc_id session_id false [] s = rw send_all-nil
  export_receivers-eq pc_id session_id true (stat ∷ stats) s =
      rw (send_all-append (rx_gauges stat pc_id session_id), ← write_video_rx_stats_lem)
        (export_receivers-eq pc_id session_id true stats _)
  export_receivers-eq pc_id session_id false (stat ∷ stats) s =
      rw (send_all-append (rx_gauges stat pc_id session_id), ← write_video_rx_stats_lem)
        (export_receivers-eq pc_id session_id false stats _)

  export_senders-eq :
      (pc_id session_id : String) (poll : Bool) (stats : List (VideoSenderStats Number))
      (s : Held PeerConnectionManager World)
      → export_senders pc_id session_id poll stats s ≡ record {
        item = if poll then poll_senders stats s.item else s.item;
        world = send_all (all_tx_gauges pc_id session_id stats) s.world;
      }
  unfolding export_senders
  export_senders-eq pc_id session_id true [] s = rw send_all-nil
  export_senders-eq pc_id session_id false [] s = rw send_all-nil
  export_senders-eq pc_id session_id true (stat ∷ stats) s =
      rw (send_all-append (tx_gauges stat pc_id session_id), ← write_video_tx_stats_lem)
        (export_senders-eq pc_id session_id true stats _)
  export_senders-eq pc_id session_id false (stat ∷ stats) s =
      rw (send_all-append (tx_gauges stat pc_id session_id), ← write_video_tx_stats_lem)
        (export_senders-eq pc_id session_id false stats _)

  -- When the statistics are there, an export succeeds: it sends the gauges of each receiver and then
  -- of each sender, in order and tagged with this connection and session, and it polls the states in
  -- that order if it is a polling turn, and leaves the connection alone if not.
  pub export_stats_success :
      (session_id : String) (pc : PeerConnectionManager) (w w' : World)
      (stats : PeerConnectionStats Number)
      → webrtc_get_stats pc.webrtc_peer_connection w ≡ (inr stats, w')
      → (poll : Bool)
      → export_stats session_id poll (record { item = pc; world = w }) ≡ (
        ok tt,
        record {
          item =
              if poll
              then poll_senders stats.video_sender_stats
                  (poll_receivers stats.video_receiver_stats pc)
              else pc;
          world =
              send_all
                (all_rx_gauges pc.id session_id stats.video_receiver_stats
                  ++ all_tx_gauges pc.id session_id stats.video_sender_stats)
                w';
        },
      )
  unfolding export_stats export_lists
  export_stats_success session_id pc w w' stats h true =
      rw (h, export_receivers-eq, export_senders-eq, send_all-append)
  export_stats_success session_id pc w w' stats h false =
      rw (h, export_receivers-eq, export_senders-eq, send_all-append)

  export-pair :
      (session_id : String) (s : Held PeerConnectionManager World) (w : World)
      (stats : PeerConnectionStats Number) (a b : VideoSenderStats Number)
      → webrtc_get_stats s.item.webrtc_peer_connection s.world ≡ (inr stats, w)
      → stats.video_sender_stats ≡ a ∷ b ∷ []
      → a.bytes_sent < b.bytes_sent
      → (export_stats session_id true s).1.item.state.video_send ≡ sending b.bytes_sent
  export-pair session_id s w stats a b read pair less =
      rw (export_stats_success session_id s.item s.world w stats read true, pair)
        (ground
          (arith, poll_senders-last_two [] a b (poll_receivers stats.video_receiver_stats s.item)))

  -- If libwebrtc gives the same statistics of a connection in two polling exports in a row, with two
  -- senders of which the first has sent fewer bytes than the second, then the connection counts as
  -- sending after either export, although neither of its counters has grown from the one to the other.
  pub idle_pair_sending :
      (session_id : String) (s : Held PeerConnectionManager World) (w w' : World)
      (stats : PeerConnectionStats Number) (a b : VideoSenderStats Number)
      → let t = (export_stats session_id true s).1 in
        webrtc_get_stats s.item.webrtc_peer_connection s.world ≡ (inr stats, w)
        → webrtc_get_stats t.item.webrtc_peer_connection t.world ≡ (inr stats, w')
        → stats.video_sender_stats ≡ a ∷ b ∷ []
        → a.bytes_sent < b.bytes_sent
        → (t.item.state.video_send ≡ sending b.bytes_sent)
          × ((export_stats session_id true t).1.item.state.video_send ≡ sending b.bytes_sent)
  idle_pair_sending session_id s w w' stats a b read again pair less =
      let t = (export_stats session_id true s).1 in
      (
        export-pair session_id s w stats a b read pair less,
        export-pair session_id t w' stats a b again pair less,
      )
