-- ===== src/Stats.antt =====
-- src/stats.rs: what a client is told of a session.
use load_test_server.Prelude.{ℕ, String, Option, none, some, length}
use load_test_server.Result.{Exec, ok, fallible}
use load_test_server.Error.{ServerError, server_error_from}
use load_test_server.Helpers.{systemtime_to_timestamp}
use load_test_server.Session.{
  Session, SessionState, created, started, stopped, PeerConnectionState, peer_connection_states,
  elapsed_time,
}
use load_test_server.PeerConnection.{webrtc}
use load_test_server.External.Types.{PeerConnectionStats}
use load_test_server.External.Platform.{Platform}

pub record SessionStats : Type 0 where
  pub id : String
  pub name : String
  pub num_peer_connections : ℕ  -- u64
  pub state : SessionState
  pub peer_connection_state : PeerConnectionState
  pub start_time : Option ℕ
  pub stop_time : Option ℕ
  pub elapsed_time : ℕ  -- u64

-- strum::ToString
abbrev pub state_to_string : SessionState → String
state_to_string created = "Created"
state_to_string started = "Started"
state_to_string stopped = "Stopped"

-- the message PeerConnectionState of proto/webrtc.proto
pub record WebrtcPeerConnectionState : Type 0 where
  pub num_sending : ℕ  -- int32
  pub num_not_sending : ℕ  -- int32
  pub num_receiving : ℕ  -- int32
  pub num_not_receiving : ℕ  -- int32

-- src/session.rs: From<PeerConnectionState>
unfoldable pub webrtc_peer_connection_state : PeerConnectionState → WebrtcPeerConnectionState
webrtc_peer_connection_state s = record {
  num_sending = s.num_sending;
  num_not_sending = s.num_not_sending;
  num_receiving = s.num_receiving;
  num_not_receiving = s.num_not_receiving;
}

abbrev unwrap_or_zero : Option ℕ → ℕ
unwrap_or_zero none = 0
unwrap_or_zero (some n) = n

module _ ⦃P : Platform⦄ where
  open P use {World, by_name, Timestamp, Number, VideoTransceiver, video_get_stats}
  open by_name use {entries}

  -- impl From<&Session> for SessionStats; a usize is a u64
  unfoldable pub session_stats : Session → World → SessionStats × World
  session_stats session w =
      let (elapsed, w') = elapsed_time session w in
      (
        record {
          id = session.id;
          name = session.name;
          num_peer_connections = length (entries session.peer_connections);
          state = session.state;
          peer_connection_state = peer_connection_states session;
          start_time = session.start_time;
          stop_time = session.stop_time;
          elapsed_time = unwrap_or_zero elapsed;
        },
        w',
      )

  pub record Stats : Type 0 where
    pub session : SessionStats

  unfoldable pub get_stats : Session → Exec World ServerError Stats
  unfolding session_stats
  get_stats session w =
      let (stats, w') = session_stats session w in (ok (record { session = stats }), w')

  -- `_get_video_transceiver_stats`
  unfoldable pub get_video_transceiver_stats :
      VideoTransceiver → Exec World ServerError (PeerConnectionStats Number)
  unfolding server_error_from
  get_video_transceiver_stats tscv = webrtc (fallible (video_get_stats tscv))

  -- the message SessionStats of proto/webrtc.proto
  pub record WebrtcSessionStats : Type 0 where
    pub id : String
    pub name : String
    pub num_peer_connections : ℕ
    pub state : String
    pub peer_connection_state : Option WebrtcPeerConnectionState
    pub start_time : Option Timestamp
    pub stop_time : Option Timestamp
    pub elapsed_time : ℕ

  -- impl From<SessionStats> for webrtc::SessionStats
  unfoldable pub webrtc_session_stats : SessionStats → WebrtcSessionStats
  unfolding webrtc_peer_connection_state systemtime_to_timestamp
  webrtc_session_stats s = record {
    id = s.id;
    name = s.name;
    num_peer_connections = s.num_peer_connections;
    state = state_to_string s.state;
    peer_connection_state = some (webrtc_peer_connection_state s.peer_connection_state);
    start_time = systemtime_to_timestamp s.start_time;
    stop_time = systemtime_to_timestamp s.stop_time;
    elapsed_time = s.elapsed_time;
  }
