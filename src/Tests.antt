-- ===== src/Tests.antt =====
-- A concrete platform for the examples: the clock is the world, and every call of libwebrtc succeeds.
pub mod Pool
pub mod Sessions
pub mod Servers
pub mod Interleaved
pub mod Streams
pub mod Exchange
pub mod Works
pub mod Schedule
pub mod UnitTests
pub mod Answers
use text.Mathlib.Text.{◌==◌ as str_eq}
use text.Mathlib.TextEquality.{eq_iff}
use load_test_server.Prelude.{
  ℕ, ◌+◌, ◌*◌, ◌≤◌, ◌≡◌, refl, inl, inr, Bool, true, false, String, Option, none, some, List, [],
  ◌∷◌, arith, ◌==◌, ==_iff, if◌then◌else◌,
}
use load_test_server.Result.{pure}
use load_test_server.External.Types.{
  LoggingSeverity, SdpType, TransceiverDirection, MediaType, WebrtcLogLevel, log_level_number,
  WebrtcSdpType, sdp_type_number, PeerConnectionStats, VideoReceiverStats, VideoSenderStats,
}
use load_test_server.External.Assoc.{assoc_map}
use load_test_server.External.Platform.{Platform}

abbrev levels : ℕ → Option WebrtcLogLevel
levels n =
    if n == 0
    then some WebrtcLogLevel.none
    else if n == 1
    then some WebrtcLogLevel.info
    else if n == 2
    then some WebrtcLogLevel.warn
    else if n == 3
    then some WebrtcLogLevel.error
    else if n == 4
    then some WebrtcLogLevel.verbose
    else none

pub levels-number : (l : WebrtcLogLevel) → levels (log_level_number l) ≡ some l
levels-number WebrtcLogLevel.none = refl
levels-number WebrtcLogLevel.info = refl
levels-number WebrtcLogLevel.warn = refl
levels-number WebrtcLogLevel.error = refl
levels-number WebrtcLogLevel.verbose = refl

pub levels-unknown : (n : ℕ) → 5 ≤ n → levels n ≡ none
levels-unknown n h = ground arith

abbrev sdp_types : ℕ → Option WebrtcSdpType
sdp_types n =
    if n == 0
    then some WebrtcSdpType.offer
    else if n == 1
    then some WebrtcSdpType.pranswer
    else if n == 2
    then some WebrtcSdpType.answer
    else if n == 3
    then some WebrtcSdpType.rollback
    else none

pub sdp_types-number : (t : WebrtcSdpType) → sdp_types (sdp_type_number t) ≡ some t
sdp_types-number WebrtcSdpType.offer = refl
sdp_types-number WebrtcSdpType.pranswer = refl
sdp_types-number WebrtcSdpType.answer = refl
sdp_types-number WebrtcSdpType.rollback = refl

abbrev pub receiver_stats : ℕ → VideoReceiverStats ℕ
receiver_stats bytes = record {
  ssrc = 1;
  packets_received = 2;
  packets_lost = 0;
  packets_repaired = 0;
  bytes_received = bytes;
  frames_decoded = 1;
  keyframes_decoded = 1;
  frames_dropped = 0;
  total_decode_time = 1;
  frame_width = 640;
  frame_height = 480;
}

abbrev pub sender_stats : ℕ → VideoSenderStats ℕ
sender_stats bytes = record {
  ssrc = 1;
  packets_sent = 2;
  bytes_sent = bytes;
  frames_encoded = 1;
  key_frames_encoded = 1;
  total_encode_time = 1;
  frame_width = 640;
  frame_height = 480;
  total_packet_send_delay = 0;
  nack_count = 0;
  fir_count = 0;
  pli_count = 0;
  remote_packets_lost = 0;
  remote_jitter = 0;
  remote_round_trip_time = 0;
}

-- connection 8 has two senders
abbrev pub stats_of : ℕ → PeerConnectionStats ℕ
stats_of pc = record {
  video_receiver_stats = receiver_stats 10 ∷ [];
  video_sender_stats =
      if pc == 8 then sender_stats 3 ∷ sender_stats 8 ∷ [] else sender_stats 10 ∷ [];
}

abbrev variables : String → String
variables name =
    if str_eq name "host" then "0.0.0.0" else if str_eq name "port" then "50051" else "localhost"

instance abbrev pub toy : Platform
toy = record {
  World = ℕ;
  by_name = assoc_map str_eq eq_iff;
  by_id = assoc_map ◌==◌ ==_iff;
  now = λ w. (w * 1_000_000_000, w + 1);
  sleep = λ ms w. w;
  Number = ℕ;
  number_to_string = λ n. "n";
  uint_to_string = λ n. "u";
  dotenv = λ w. w;
  EnvyError = Unit {0};
  from_env = λ fields w. if w == 0 then inl tt else inr variables;
  SocketAddr = String;
  AddrParseError = String;
  parse_addr =
      λ addr. if str_eq addr "0.0.0.0:50051" then inr addr else inl "invalid socket address syntax";
  addr_parse_error_to_string = λ e. e;
  PoisonError = Unit {0};
  poison_error_to_string = λ e. "poisoned lock: another task failed inside";
  TransportError = String;
  transport_error_to_string = λ e. e;
  num_cpus = λ w. 2;
  nanoid = λ w. ("nano", w);
  Timestamp = ℕ;
  timestamp_from = λ t. t;
  gauge = λ name value tags w. w;
  log_level_from_i32 = levels;
  log_level_from_i32-number = levels-number;
  log_level_from_i32-unknown = levels-unknown;
  sdp_type_from_i32 = sdp_types;
  sdp_type_from_i32-number = sdp_types-number;
  TracingError = Unit {0};
  tracing_init = pure tt;
  Sender = λ T. ℕ;
  Receiver = λ T. ℕ;
  channel = λ T n w. ((n, n), w);
  set_arcas_log_level = λ severity w. w;
  WebRtcError = String;
  unexpected_error = λ e. e;
  web_rtc_error_to_string = λ e. e;
  VideoEncoderPool = ℕ;
  VideoEncoderPoolTx = ℕ;
  video_encoder_pool_create = pure (0, 0);
  Factory = ℕ;
  factory_new = λ w. (0, w);
  VideoEncoderFactory = ℕ;
  reactive_video_encoder_create = λ tx. pure 0;
  PeerConnectionFactory = ℕ;
  create_factory_with_config = λ factory encoder. pure 0;
  ConnectionState = ℕ;
  IceCandidate = ℕ;
  candidate_sdp = λ c. "sdp";
  candidate_sdp_mid = λ c. "mid";
  candidate_sdp_mline_index = λ c. c;
  VideoTransceiver = ℕ;
  video_mid = λ t. "mid";
  video_direction = λ t. TransceiverDirection.send_only;
  video_get_stats = λ t w. (inl "no stats", w);
  video_media_type = λ t. MediaType.video;
  direction_to_string = λ d. "direction";
  AudioTransceiver = ℕ;
  audio_mid = λ t. "mid";
  audio_direction = λ t. TransceiverDirection.recv_only;
  audio_media_type = λ t. MediaType.audio;
  PeerConnection = ℕ;
  factory_create_peer_connection = λ factory states candidates tracks. pure 7;
  SessionDescription = String;
  session_description_new = λ t text. pure text;
  session_description_get_type = λ d. SdpType.offer;
  session_description_to_string = λ d. d;
  webrtc_create_offer = λ pc. pure "offer";
  webrtc_create_answer = λ pc. pure "answer";
  webrtc_set_local_description = λ pc d. pure tt;
  webrtc_set_remote_description = λ pc d. pure tt;
  webrtc_get_stats = λ pc w. (inr (stats_of pc), w + 1);
  webrtc_get_transceivers = λ pc w. ((1 ∷ [], []), w);
  VideoTrackSource = ℕ;
  VideoTrackSourceWriter = ℕ;
  video_track_source_create = λ w. ((0, 0), w);
  VideoTrack = ℕ;
  create_video_track = λ factory label source. pure 0;
  add_video_track = λ pc ids track. pure tt;
  add_video_transceiver = λ pc ids direction track. pure 0;
  EmptyFrameProducer = ℕ;
  FrameReceiver = ℕ;
  EmptyFrame = ℕ;
  default_fps = 30;
  empty_frame_producer_new = λ fps. pure 0;
  empty_frame_producer_start = λ producer. pure 0;
  empty_frame_producer_cancel = λ producer w. w;
  recv_frame = λ rx w. (some 0, w);
  push_empty_frame = λ writer frame. pure tt;
  spawn_frame_loop = λ rx body w. w;
}
