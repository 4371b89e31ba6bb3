-- ===== src/External/Types.antt =====
-- Enumerations and structs of other crates and of generated code, with the variants and fields that
-- src/log.rs, src/handlers.rs, src/metrics.rs, src/stats.rs and proto/webrtc.proto name.
use load_test_server.Prelude.{ℕ, List}

-- libwebrtc_sys::ffi::LoggingSeverity
pub data LoggingSeverity : Type 0 where
  ls_none ls_info ls_warning ls_error ls_verbose : LoggingSeverity

-- libwebrtc::sdp::SDPType
pub data SdpType : Type 0 where
  offer pr_answer answer rollback : SdpType

-- libwebrtc::transceiver::TransceiverDirection
pub data TransceiverDirection : Type 0 where
  send_recv send_only recv_only inactive : TransceiverDirection

-- libwebrtc::media_type::MediaType
pub data MediaType : Type 0 where
  audio video data_channel unsupported : MediaType

-- the enumerations of proto/webrtc.proto, and the numbers that it gives them
pub data WebrtcLogLevel : Type 0 where
  none info warn error verbose : WebrtcLogLevel

abbrev pub log_level_number : WebrtcLogLevel → ℕ
log_level_number WebrtcLogLevel.none = 0
log_level_number WebrtcLogLevel.info = 1
log_level_number WebrtcLogLevel.warn = 2
log_level_number WebrtcLogLevel.error = 3
log_level_number WebrtcLogLevel.verbose = 4

pub data WebrtcSdpType : Type 0 where
  offer pranswer answer rollback : WebrtcSdpType

abbrev pub sdp_type_number : WebrtcSdpType → ℕ
sdp_type_number WebrtcSdpType.offer = 0
sdp_type_number WebrtcSdpType.pranswer = 1
sdp_type_number WebrtcSdpType.answer = 2
sdp_type_number WebrtcSdpType.rollback = 3

pub data WebrtcTransceiverDirection : Type 0 where
  sendrecv sendonly recvonly inactive : WebrtcTransceiverDirection

abbrev pub direction_number : WebrtcTransceiverDirection → ℕ
direction_number WebrtcTransceiverDirection.sendrecv = 0
direction_number WebrtcTransceiverDirection.sendonly = 1
direction_number WebrtcTransceiverDirection.recvonly = 2
direction_number WebrtcTransceiverDirection.inactive = 3

pub data WebrtcMediaType : Type 0 where
  audio video data_channel unsupported : WebrtcMediaType

abbrev pub media_type_number : WebrtcMediaType → ℕ
media_type_number WebrtcMediaType.audio = 0
media_type_number WebrtcMediaType.video = 1
media_type_number WebrtcMediaType.data_channel = 2
media_type_number WebrtcMediaType.unsupported = 3

-- ArcasVideoReceiverStats; the fields that are only printed are of an abstract type of numbers
pub record VideoReceiverStats (Number : Type 0) : Type 0 where
  pub ssrc : Number
  pub packets_received : Number
  pub packets_lost : Number
  pub packets_repaired : Number
  pub bytes_received : ℕ  -- u64
  pub frames_decoded : Number
  pub keyframes_decoded : Number
  pub frames_dropped : Number
  pub total_decode_time : Number
  pub frame_width : Number
  pub frame_height : Number

-- ArcasVideoSenderStats
pub record VideoSenderStats (Number : Type 0) : Type 0 where
  pub ssrc : Number
  pub packets_sent : Number
  pub bytes_sent : ℕ  -- u64
  pub frames_encoded : Number
  pub key_frames_encoded : Number
  pub total_encode_time : Number
  pub frame_width : Number
  pub frame_height : Number
  pub total_packet_send_delay : Number
  pub nack_count : Number
  pub fir_count : Number
  pub pli_count : Number
  pub remote_packets_lost : Number
  pub remote_jitter : Number
  pub remote_round_trip_time : Number

pub record PeerConnectionStats (Number : Type 0) : Type 0 where
  pub video_receiver_stats : List (VideoReceiverStats Number)
  pub video_sender_stats : List (VideoSenderStats Number)
