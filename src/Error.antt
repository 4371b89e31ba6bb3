-- ===== src/Error.antt =====
-- src/error.rs: the server's errors, their texts, and the gRPC status that a client gets.
use Prim.Native.String.{◌++◌}
use load_test_server.Prelude.{String}
use load_test_server.External.Platform.{Platform}

pub data ServerError : Type 0 where
  create_peer_connection_error : String → ServerError
  could_not_create_answer : String → ServerError
  could_not_create_offer : String → ServerError
  could_not_create_track : String → ServerError
  could_not_add_transceiver : String → ServerError
  could_not_parse_sdp : String → ServerError
  could_not_set_sdp : String → ServerError
  get_stats_error : String → String → ServerError
  internal_error : String → ServerError
  invalid_peer_connection : String → ServerError
  invalid_session_error : String → ServerError
  invalid_state_error : String → ServerError
  invalid_time_stamp_error : String → ServerError
  parse_error : String → ServerError
  web_rtc_error : String → ServerError

-- `to_string`, from the `#[error(..)]` attributes
unfoldable pub to_string : ServerError → String
to_string (create_peer_connection_error e) = "Could not create peer connection: " ++ e
to_string (could_not_create_answer e) = "Could not create answer: " ++ e
to_string (could_not_create_offer e) = "Could not create offer: " ++ e
to_string (could_not_create_track e) = "Could not create track: " ++ e
to_string (could_not_add_transceiver e) = "Could not create transceiver: " ++ e
to_string (could_not_parse_sdp e) = "Could not parse SDP: " ++ e
to_string (could_not_set_sdp e) = "Could not set SDP: " ++ e
to_string (get_stats_error s p) =
    "Could not retrieve stats for session " ++ s ++ ", peer connection " ++ p
to_string (internal_error e) = "Internal error: " ++ e
to_string (invalid_peer_connection p) = "PeerConnection " ++ p ++ " does not exist"
to_string (invalid_session_error s) = "Session " ++ s ++ " does not exist"
to_string (invalid_state_error e) = e
to_string (invalid_time_stamp_error t) = "TimeStamp " ++ t ++ " is invalid"
to_string (parse_error e) = "Parse error: " ++ e
to_string (web_rtc_error e) = "WebRTC error: " ++ e

-- tonic::Status with the two codes that the server sends
pub data Status : Type 0 where
  internal : String → Status
  not_found : String → Status

-- impl From<ServerError> for Status
unfoldable pub status_from : ServerError → Status
status_from e = internal (to_string e)

module _ ⦃P : Platform⦄ where
  open P use {
    WebRtcError, web_rtc_error_to_string, AddrParseError, addr_parse_error_to_string, PoisonError,
    poison_error_to_string,
  }

  -- impl From<AddrParseError> for ServerError
  unfoldable pub parse_error_from : AddrParseError → ServerError
  parse_error_from e = parse_error (addr_parse_error_to_string e)

  -- impl From<PoisonError<MutexGuard<T>>> for ServerError
  unfoldable pub poison_error_from : PoisonError → ServerError
  poison_error_from e = internal_error (poison_error_to_string e)

  -- impl From<WebRTCError> for ServerError
  unfoldable pub server_error_from : WebRtcError → ServerError
  server_error_from e = web_rtc_error (web_rtc_error_to_string e)
