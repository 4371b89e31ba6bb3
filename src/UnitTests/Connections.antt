-- ===== src/UnitTests/Connections.antt =====
-- src/peer_connection.rs, src/stats.rs: the unit tests of peer connections.
use load_test_server.Prelude.{◌==◌, Bool, false, List, [], ◌∷◌}
use load_test_server.Result.{Exec, pure, call, unwrap, unwrap_some, ◌>>=◌, ◌>>◌}
use load_test_server.Error.{ServerError}
use load_test_server.WebrtcPool
use load_test_server.WebrtcPool.{WebrtcPool}
use load_test_server.PeerConnection
use load_test_server.PeerConnection.{
  PeerConnectionManager, VideoSendState, sending, not_sending, create_offer, create_answer,
  set_local_description, set_remote_description, take_ice_candidates_rx,
}
use load_test_server.PeerConnection.Media.{add_track, add_transceiver}
use load_test_server.PeerConnection.Polling.{set_send_state}
use load_test_server.UnitTests.{check}
use load_test_server.External.Types.{VideoSenderStats}
use load_test_server.External.Platform.{Platform}

-- PartialEq for VideoSendState
abbrev pub same_send_state : VideoSendState → VideoSendState → Bool
same_send_state (sending a) (sending b) = a == b
same_send_state (not_sending a) (not_sending b) = a == b
same_send_state _ _ = false

module _ ⦃P : Platform⦄ where
  open P use {
    World, Number, IceCandidate, by_id, nanoid, sleep, VideoTrackSource, VideoTrackSourceWriter,
    video_track_source_create, SessionDescription, session_description_get_type,
    session_description_to_string,
  }
  open by_id use {get}

  abbrev pub Source : Type 0
  Source = VideoTrackSource × VideoTrackSourceWriter

  unfoldable pub peer_connection_params : Exec World ServerError (WebrtcPool × Source)
  peer_connection_params = do
    pool ← unwrap (WebrtcPool.new 1)
    source ← call video_track_source_create
    pure (pool, source)

  unfoldable pub new_peer_connection :
      Exec World ServerError (PeerConnectionManager × WebrtcPool × Source)
  unfolding peer_connection_params
  new_peer_connection = do
    (pool, video_source) ← peer_connection_params
    factory ← unwrap_some (get pool.factory_list 0)
    id ← call nanoid
    pc ← unwrap (PeerConnection.new factory.peer_connection_factory 0 id "new")
    pure (pc, pool, video_source)

  abbrev pub set_local :
      PeerConnectionManager → SessionDescription → Exec World ServerError (Unit {0})
  set_local pc d =
      unwrap (
        set_local_description pc (session_description_get_type d) (session_description_to_string d))

  abbrev pub set_remote :
      PeerConnectionManager → SessionDescription → Exec World ServerError (Unit {0})
  set_remote pc d =
      unwrap (
        set_remote_description pc (session_description_get_type d)
          (session_description_to_string d))

  abbrev pub Test : Type 0
  Test = Exec World ServerError (Unit {0})

  unfoldable pub it_creates_a_new_peer_connection : Test
  unfolding new_peer_connection
  it_creates_a_new_peer_connection = do made ← new_peer_connection; pure tt

  unfoldable pub it_creates_an_offer : Test
  unfolding new_peer_connection create_offer
  it_creates_an_offer = do
    (pc, pool, source) ← new_peer_connection
    offer ← unwrap (create_offer pc)
    pure tt

  unfoldable pub it_creates_an_answer : Test
  unfolding new_peer_connection create_offer set_remote_description create_answer
  it_creates_an_answer = do
    (pc, pool, source) ← new_peer_connection
    offer ← unwrap (create_offer pc)
    set_remote pc offer
    answer ← unwrap (create_answer pc)
    pure tt

  unfoldable pub it_sets_local_description : Test
  unfolding new_peer_connection create_offer set_local_description
  it_sets_local_description = do
    (pc, pool, source) ← new_peer_connection
    offer ← unwrap (create_offer pc)
    set_local pc offer

  unfoldable pub it_sets_remote_description : Test
  unfolding new_peer_connection create_offer set_remote_description
  it_sets_remote_description = do
    (pc, pool, source) ← new_peer_connection
    offer ← unwrap (create_offer pc)
    set_remote pc offer

  unfoldable pub it_adds_a_track : Test
  unfolding new_peer_connection add_track
  it_adds_a_track = do
    (pc, pool, video_source) ← new_peer_connection
    unwrap (add_track pc pool video_source.0 "Testlabel")

  unfoldable pub it_adds_a_transceiver : Test
  unfolding new_peer_connection add_transceiver
  it_adds_a_transceiver = do
    (pc, pool, video_source) ← new_peer_connection
    transceiver ← unwrap (add_transceiver pc pool video_source.0 "Testlabel")
    pure tt

  -- src/stats.rs: sender statistics in which every number is zero, given the f64 zero
  abbrev pub video_receiver_stats : Number → VideoSenderStats Number
  video_receiver_stats zero = record {
    ssrc = zero;
    packets_sent = zero;
    bytes_sent = 0;
    frames_encoded = zero;
    key_frames_encoded = zero;
    total_encode_time = zero;
    frame_width = zero;
    frame_height = zero;
    total_packet_send_delay = zero;
    nack_count = zero;
    fir_count = zero;
    pli_count = zero;
    remote_packets_lost = zero;
    remote_jitter = zero;
    remote_round_trip_time = zero;
  }

  unfoldable pub it_sets_sending_state : Number → Test
  unfolding new_peer_connection set_send_state
  it_sets_sending_state zero = do
    (pc, pool, source) ← new_peer_connection
    let stats = video_receiver_stats zero
    check (same_send_state pc.state.video_send (not_sending 0))
    let pc1 = set_send_state stats pc
    check (same_send_state pc1.state.video_send (not_sending 0))
    let stats1 = record stats { bytes_sent = 100 }
    let pc2 = set_send_state stats1 pc1
    check (same_send_state pc2.state.video_send (sending 100))
    let pc3 = set_send_state stats1 pc2
    check (same_send_state pc3.state.video_send (not_sending 100))

  abbrev pub tests : Number → List Test
  tests zero =
      it_creates_a_new_peer_connection
      ∷ it_creates_an_offer
      ∷ it_creates_an_answer
      ∷ it_sets_local_description
      ∷ it_sets_remote_description
      ∷ it_adds_a_track
      ∷ it_adds_a_transceiver
      ∷ it_sets_sending_state zero
      ∷ []
