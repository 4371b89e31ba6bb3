-- ===== src/PeerConnection.antt =====
-- src/peer_connection.rs: one peer connection with its receivers and its send and receive state.
pub mod Media
pub mod Polling
pub mod New
pub mod Works
use load_test_server.Prelude.{ℕ, String, Option, none, some, List}
use load_test_server.Result.{Result, Exec, ok, err, pure, call, map_err, ◌>>=◌}
use load_test_server.Error.{ServerError, internal_error, server_error_from}
use load_test_server.External.Types.{SdpType}
use load_test_server.External.Platform.{Platform}

-- the last bytes_sent
pub data VideoSendState : Type 0 where
  sending : ℕ → VideoSendState
  not_sending : ℕ → VideoSendState

-- the last bytes_received
pub data VideoReceiveState : Type 0 where
  receiving : ℕ → VideoReceiveState
  not_receiving : ℕ → VideoReceiveState

pub record PeerConnectionState : Type 0 where
  pub video_send : VideoSendState
  pub video_receive : VideoReceiveState

abbrev pub connection_state_buffering : ℕ
connection_state_buffering = 100

abbrev pub ice_candidate_buffering : ℕ
ice_candidate_buffering = 100

abbrev pub video_track_buffering : ℕ
video_track_buffering = 100

abbrev pub last_bytes_sent : VideoSendState → ℕ
last_bytes_sent (sending bytes_sent) = bytes_sent
last_bytes_sent (not_sending bytes_sent) = bytes_sent

abbrev pub last_bytes_received : VideoReceiveState → ℕ
last_bytes_received (receiving bytes_received) = bytes_received
last_bytes_received (not_receiving bytes_received) = bytes_received

module _ ⦃P : Platform⦄ where
  open P use {
    World, Receiver, channel, WebRtcError, ConnectionState, IceCandidate, VideoTransceiver,
    AudioTransceiver, PeerConnection, PeerConnectionFactory, factory_create_peer_connection,
    SessionDescription, session_description_new, webrtc_create_offer, webrtc_create_answer,
    webrtc_set_local_description, webrtc_set_remote_description, webrtc_get_transceivers,
  }

  pub record PeerConnectionManager : Type 0 where
    pub id : String
    pub name : String
    pub webrtc_peer_connection : PeerConnection
    pub pool_id : ℕ  -- u32
    pub state : PeerConnectionState
    pub connection_state_rx : Option (Receiver ConnectionState)
    pub ice_candidates_rx : Option (Receiver IceCandidate)
    pub video_track_rx : Option (Receiver VideoTransceiver)

  -- `?` on a call of libwebrtc
  abbrev pub webrtc : {A : Type 0} → Exec World WebRtcError A → Exec World ServerError A
  webrtc m = map_err server_error_from m

  unfoldable pub new :
      PeerConnectionFactory → ℕ → String → String → Exec World ServerError PeerConnectionManager
  unfolding server_error_from
  new peer_connection_factory pool_id id name = do
    (connection_state_tx, connection_state_rx) ←
        call (channel ConnectionState connection_state_buffering)
    (ice_candidates_tx, ice_candidates_rx) ← call (channel IceCandidate ice_candidate_buffering)
    (video_track_tx, video_track_rx) ← call (channel VideoTransceiver video_track_buffering)
    webrtc_peer_connection ← webrtc (
        factory_create_peer_connection peer_connection_factory connection_state_tx ice_candidates_tx
          video_track_tx)
    pure (record {
      id = id;
      name = name;
      webrtc_peer_connection = webrtc_peer_connection;
      pool_id = pool_id;
      state = record { video_send = not_sending 0; video_receive = not_receiving 0 };
      connection_state_rx = some connection_state_rx;
      ice_candidates_rx = some ice_candidates_rx;
      video_track_rx = some video_track_rx;
    })

  unfoldable pub create_offer : PeerConnectionManager → Exec World ServerError SessionDescription
  unfolding server_error_from
  create_offer pc = webrtc (webrtc_create_offer pc.webrtc_peer_connection)

  unfoldable pub create_answer : PeerConnectionManager → Exec World ServerError SessionDescription
  unfolding server_error_from
  create_answer pc = webrtc (webrtc_create_answer pc.webrtc_peer_connection)

  unfoldable pub set_local_description :
      PeerConnectionManager → SdpType → String → Exec World ServerError (Unit {0})
  unfolding server_error_from
  set_local_description pc sdp_type text = do
    sdp ← webrtc (session_description_new sdp_type text)
    webrtc (webrtc_set_local_description pc.webrtc_peer_connection sdp)

  unfoldable pub set_remote_description :
      PeerConnectionManager → SdpType → String → Exec World ServerError (Unit {0})
  unfolding server_error_from
  set_remote_description pc sdp_type text = do
    sdp ← webrtc (session_description_new sdp_type text)
    webrtc (webrtc_set_remote_description pc.webrtc_peer_connection sdp)

  -- `take` and `ok_or_else`: a receiver can be taken once
  unfoldable pub take_connection_state_rx :
      Exec PeerConnectionManager ServerError (Receiver ConnectionState)
  take_connection_state_rx pc = elim pc.connection_state_rx [
    | none ↦ (err (internal_error "connection_state_rx already taken"), pc)
    | some rx ↦ (ok rx, record pc { connection_state_rx = none })
  ]

  unfoldable pub take_ice_candidates_rx :
      Exec PeerConnectionManager ServerError (Receiver IceCandidate)
  take_ice_candidates_rx pc = elim pc.ice_candidates_rx [
    | none ↦ (err (internal_error "ice_candidates_rx already taken"), pc)
    | some rx ↦ (ok rx, record pc { ice_candidates_rx = none })
  ]

  unfoldable pub take_video_track_rx :
      Exec PeerConnectionManager ServerError (Receiver VideoTransceiver)
  take_video_track_rx pc = elim pc.video_track_rx [
    | none ↦ (err (internal_error "video_track_rx already taken"), pc)
    | some rx ↦ (ok rx, record pc { video_track_rx = none })
  ]

  unfoldable pub get_transceivers :
      PeerConnectionManager → World → (List VideoTransceiver × List AudioTransceiver) × World
  get_transceivers pc w = webrtc_get_transceivers pc.webrtc_peer_connection w
