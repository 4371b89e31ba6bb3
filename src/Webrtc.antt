-- ===== src/Webrtc.antt =====
-- proto/webrtc.proto: the messages of the service, as the handlers read and build them. Enumerations
-- travel as their numbers.
use load_test_server.Prelude.{ℕ, Bool, String, Option, List}
use load_test_server.Stats.{WebrtcSessionStats}
use load_test_server.External.Platform.{Platform}

pub record CreateSessionRequest : Type 0 where
  pub session_id : String
  pub name : String
  pub polling_state_s : ℕ  -- uint64
  pub log_level : ℕ  -- LogLevel

pub record CreateSessionResponse : Type 0 where
  pub session_id : String

pub record StartSessionRequest : Type 0 where
  pub session_id : String

pub record StopSessionRequest : Type 0 where
  pub session_id : String

pub record GetStatsRequest : Type 0 where
  pub session_id : String

pub record CreatePeerConnectionRequest : Type 0 where
  pub session_id : String
  pub peer_connection_id : String
  pub name : String

pub record CreateSdpRequest : Type 0 where
  pub session_id : String
  pub peer_connection_id : String

pub record CreateSdpResponse : Type 0 where
  pub session_id : String
  pub peer_connection_id : String
  pub sdp : String
  pub sdp_type : ℕ  -- SDPType

pub record SetSdpRequest : Type 0 where
  pub session_id : String
  pub peer_connection_id : String
  pub sdp : String
  pub sdp_type : ℕ  -- SDPType

pub record SetSdpResponse : Type 0 where
  pub session_id : String
  pub peer_connection_id : String
  pub success : Bool

-- AddTrackRequest and AddTransceiverRequest
pub record AddTrackRequest : Type 0 where
  pub session_id : String
  pub peer_connection_id : String
  pub track_id : String
  pub track_label : String

-- ObserverRequest and GetTransceiversRequest
pub record ObserverRequest : Type 0 where
  pub session_id : String
  pub peer_connection_id : String

pub record IceCandidate : Type 0 where
  pub sdp : String
  pub mid : String
  pub mline_index : ℕ  -- uint32

pub record VideoTransceiver : Type 0 where
  pub mid : String
  pub direction : String

-- PeerConnectionObserverMessage
pub data ObserverMessage : Type 0 where
  ice_candidate : IceCandidate → ObserverMessage
  video_transceiver : VideoTransceiver → ObserverMessage

pub record Transceiver : Type 0 where
  pub id : String
  pub mid : String
  pub direction : ℕ  -- TransceiverDirection
  pub media_type : ℕ  -- MediaType

pub record GetTransceiversResponse : Type 0 where
  pub transceivers : List Transceiver

module _ ⦃P : Platform⦄ where
  pub record GetStatsResponse : Type 0 where
    pub session : Option WebrtcSessionStats
