-- ===== src/Handlers.antt =====
-- src/handlers.rs: the remote procedures, and the conversions that they share. A procedure takes the
-- server before the call, and gives the response or the status beside the server after it. The lines
-- that are logged are left out.
pub mod Sessions
pub mod PeerConnections
pub mod Observer
pub mod Reading
pub mod Create
pub mod Calls
pub mod Valid
pub mod Frame
pub mod Connections
pub mod Found
pub mod Exchange
pub mod Works
pub mod Stats
use load_test_server.Prelude.{
  ℕ, Bool, true, String, Option, none, some, List, [], ◌∷◌, ◌++◌, map, if◌then◌else◌,
}
use text.Mathlib.Text.{◌==◌}
use load_test_server.Result.{
  Exec, Held, ok, err, panic, pure, call, convert, map_err, on_world, ◌>>=◌, ◌>>◌,
}
use load_test_server.Error.{ServerError, Status, not_found, status_from}
use load_test_server.Log
use load_test_server.WebrtcPool.{WebrtcPool}
use load_test_server.WebrtcPool.Create.{create_peer_connection_manager}
use load_test_server.PeerConnection
use load_test_server.PeerConnection.{
  PeerConnectionManager, take_video_track_rx, take_ice_candidates_rx,
}
use load_test_server.PeerConnection.Media
use load_test_server.Session
use load_test_server.Session.{Session, add_peer_connection, get_peer_connection}
use load_test_server.Stats.{session_stats, webrtc_session_stats}
use load_test_server.Data.{Server, lookup, write, add_session, get_session, call_session}
use load_test_server.Webrtc.{
  CreateSessionRequest, CreateSessionResponse, StartSessionRequest, StopSessionRequest,
  GetStatsRequest, GetStatsResponse, CreatePeerConnectionRequest, CreateSdpRequest,
  CreateSdpResponse, SetSdpRequest, SetSdpResponse, AddTrackRequest, ObserverRequest, Transceiver,
  GetTransceiversResponse,
}
use load_test_server.External.Types.{
  SdpType, TransceiverDirection, MediaType, WebrtcSdpType, sdp_type_number,
  WebrtcTransceiverDirection, direction_number, WebrtcMediaType, media_type_number,
}
use load_test_server.External.Platform.{Platform}

-- impl From<webrtc::SdpType> for SDPType
unfoldable pub sdp_type_from : WebrtcSdpType → SdpType
sdp_type_from WebrtcSdpType.offer = SdpType.offer
sdp_type_from WebrtcSdpType.pranswer = SdpType.pr_answer
sdp_type_from WebrtcSdpType.answer = SdpType.answer
sdp_type_from WebrtcSdpType.rollback = SdpType.rollback

-- impl From<TransceiverDirection> for webrtc::TransceiverDirection
unfoldable pub direction_from : TransceiverDirection → WebrtcTransceiverDirection
direction_from TransceiverDirection.send_recv = WebrtcTransceiverDirection.sendrecv
direction_from TransceiverDirection.send_only = WebrtcTransceiverDirection.sendonly
direction_from TransceiverDirection.recv_only = WebrtcTransceiverDirection.recvonly
direction_from TransceiverDirection.inactive = WebrtcTransceiverDirection.inactive

-- impl From<MediaType> for webrtc::MediaType
unfoldable pub media_type_from : MediaType → WebrtcMediaType
media_type_from MediaType.audio = WebrtcMediaType.audio
media_type_from MediaType.video = WebrtcMediaType.video
media_type_from MediaType.data_channel = WebrtcMediaType.data_channel
media_type_from MediaType.unsupported = WebrtcMediaType.unsupported

-- the accessor `sdp_type()` gives the first variant for an unknown number
abbrev pub sdp_type_or_default : Option WebrtcSdpType → WebrtcSdpType
sdp_type_or_default none = WebrtcSdpType.offer
sdp_type_or_default (some t) = t

module _ ⦃P : Platform⦄ where
  -- `?` on a ServerError
  abbrev pub status : {S A : Type 0} → Exec S ServerError A → Exec S Status A
  status m = map_err status_from m
