-- ===== src/External/Platform.antt =====
-- What the server calls and does not implement: one record of types and operations, which the
-- other modules take as an instance argument. World is all state outside the server's own.
use load_test_server.Prelude.{ℕ, ◌≤◌, ◌≡◌, ◌⊎◌, String, Option, none, some, List}
use load_test_server.External.DashMap.{DashMap}
use load_test_server.External.Types.{
  LoggingSeverity, SdpType, TransceiverDirection, MediaType, WebrtcLogLevel, log_level_number,
  WebrtcSdpType, sdp_type_number, PeerConnectionStats,
}
use load_test_server.Result.{Exec}

pub record Platform : Type 1 where
  pub World : Type 0
  -- dashmap: maps keyed by String and by u32
  pub by_name : DashMap String
  pub by_id : DashMap ℕ
  -- std: the clock in nanoseconds since the epoch; to_string of u32 and u64, and of other numbers
  pub now : World → ℕ × World
  -- std and tokio: a pause of some milliseconds
  pub sleep : ℕ → World → World
  pub Number : Type 0
  pub number_to_string : Number → String
  pub uint_to_string : ℕ → String
  -- dotenv, whose result is dropped; envy, which reads the fields of a struct from the environment
  pub dotenv : World → World
  pub EnvyError : Type 0
  pub from_env : List String → World → EnvyError ⊎ (String → String)
  -- std::net::SocketAddr, std::sync::PoisonError, and the errors of tonic's transport
  pub SocketAddr : Type 0
  pub AddrParseError : Type 0
  pub parse_addr : String → AddrParseError ⊎ SocketAddr
  pub addr_parse_error_to_string : AddrParseError → String
  pub PoisonError : Type 0
  pub poison_error_to_string : PoisonError → String
  pub TransportError : Type 0
  pub transport_error_to_string : TransportError → String
  -- num_cpus, nanoid, prost_types::Timestamp, dogstatsd
  pub num_cpus : World → ℕ
  pub nanoid : World → String × World
  pub Timestamp : Type 0
  pub timestamp_from : ℕ → Timestamp
  pub gauge : String → String → List String → World → World
  -- code that prost generates from proto/webrtc.proto, which numbers the variants
  pub log_level_from_i32 : ℕ → Option WebrtcLogLevel
  pub log_level_from_i32-number :
      (l : WebrtcLogLevel) → log_level_from_i32 (log_level_number l) ≡ some l
  pub log_level_from_i32-unknown : (n : ℕ) → 5 ≤ n → log_level_from_i32 n ≡ none
  pub sdp_type_from_i32 : ℕ → Option WebrtcSdpType
  pub sdp_type_from_i32-number :
      (t : WebrtcSdpType) → sdp_type_from_i32 (sdp_type_number t) ≡ some t
  -- tracing_subscriber: fmt::init, which fails where a subscriber has been set
  pub TracingError : Type 0
  pub tracing_init : Exec World TracingError (Unit {0})
  -- tokio::sync::mpsc
  pub Sender : Type 0 → Type 0
  pub Receiver : Type 0 → Type 0
  pub channel : (T : Type 0) → ℕ → World → (Sender T × Receiver T) × World
  -- libwebrtc_sys
  pub set_arcas_log_level : LoggingSeverity → World → World
  -- libwebrtc: errors
  pub WebRtcError : Type 0
  pub unexpected_error : String → WebRtcError
  pub web_rtc_error_to_string : WebRtcError → String
  -- libwebrtc: factories
  pub VideoEncoderPool : Type 0
  pub VideoEncoderPoolTx : Type 0
  pub video_encoder_pool_create : Exec World WebRtcError (VideoEncoderPool × VideoEncoderPoolTx)
  pub Factory : Type 0
  pub factory_new : World → Factory × World
  pub VideoEncoderFactory : Type 0
  pub reactive_video_encoder_create :
      VideoEncoderPoolTx → Exec World WebRtcError VideoEncoderFactory
  pub PeerConnectionFactory : Type 0
  pub create_factory_with_config :
      Factory → VideoEncoderFactory → Exec World WebRtcError PeerConnectionFactory
  -- libwebrtc: what a peer connection reports
  pub ConnectionState : Type 0
  pub IceCandidate : Type 0
  pub candidate_sdp : IceCandidate → String
  pub candidate_sdp_mid : IceCandidate → String
  pub candidate_sdp_mline_index : IceCandidate → ℕ
  pub VideoTransceiver : Type 0
  pub video_mid : VideoTransceiver → String
  pub video_direction : VideoTransceiver → TransceiverDirection
  pub video_get_stats :
      VideoTransceiver → World → (WebRtcError ⊎ PeerConnectionStats Number) × World
  pub video_media_type : VideoTransceiver → MediaType
  pub direction_to_string : TransceiverDirection → String
  pub AudioTransceiver : Type 0
  pub audio_mid : AudioTransceiver → String
  pub audio_direction : AudioTransceiver → TransceiverDirection
  pub audio_media_type : AudioTransceiver → MediaType
  -- libwebrtc: peer connections
  pub PeerConnection : Type 0
  pub factory_create_peer_connection :
      PeerConnectionFactory
      → Sender ConnectionState
      → Sender IceCandidate
      → Sender VideoTransceiver
      → Exec World WebRtcError PeerConnection
  pub SessionDescription : Type 0
  pub session_description_new : SdpType → String → Exec World WebRtcError SessionDescription
  pub session_description_get_type : SessionDescription → SdpType
  pub session_description_to_string : SessionDescription → String
  pub webrtc_create_offer : PeerConnection → Exec World WebRtcError SessionDescription
  pub webrtc_create_answer : PeerConnection → Exec World WebRtcError SessionDescription
  pub webrtc_set_local_description :
      PeerConnection → SessionDescription → Exec World WebRtcError (Unit {0})
  pub webrtc_set_remote_description :
      PeerConnection → SessionDescription → Exec World WebRtcError (Unit {0})
  pub webrtc_get_stats : PeerConnection → World → (WebRtcError ⊎ PeerConnectionStats Number) × World
  pub webrtc_get_transceivers :
      PeerConnection → World → (List VideoTransceiver × List AudioTransceiver) × World
  -- libwebrtc: video sources and tracks
  pub VideoTrackSource : Type 0
  pub VideoTrackSourceWriter : Type 0
  pub video_track_source_create : World → (VideoTrackSource × VideoTrackSourceWriter) × World
  pub VideoTrack : Type 0
  pub create_video_track :
      PeerConnectionFactory → String → VideoTrackSource → Exec World WebRtcError VideoTrack
  pub add_video_track :
      PeerConnection → List String → VideoTrack → Exec World WebRtcError (Unit {0})
  pub add_video_transceiver :
      PeerConnection
      → List String
      → TransceiverDirection
      → VideoTrack
      → Exec World WebRtcError VideoTransceiver
  -- libwebrtc: the producer of empty frames, and std::thread::spawn of a loop
  -- over the frames of a receiver, given the loop's body
  pub EmptyFrameProducer : Type 0
  pub FrameReceiver : Type 0
  pub EmptyFrame : Type 0
  pub default_fps : ℕ
  pub empty_frame_producer_new : ℕ → Exec World WebRtcError EmptyFrameProducer
  pub empty_frame_producer_start : EmptyFrameProducer → Exec World WebRtcError FrameReceiver
  pub empty_frame_producer_cancel : EmptyFrameProducer → World → World
  pub recv_frame : FrameReceiver → World → Option EmptyFrame × World
  pub push_empty_frame : VideoTrackSourceWriter → EmptyFrame → Exec World WebRtcError (Unit {0})
  pub spawn_frame_loop : FrameReceiver → (EmptyFrame → World → World) → World → World
