-- ===== src/Handlers/Stats.antt =====
-- src/handlers.rs, src/stats.rs: what get_stats answers.
use load_test_server.Prelude.{ℕ, ◌+◌, ◌^◌, ◌<◌, ◌≡◌, refl, ◌∙◌, is_some, Option, none, some, length}
use load_test_server.Result.{ok}
use load_test_server.Helpers.{systemtime_to_timestamp}
use load_test_server.Stats.{
  WebrtcPeerConnectionState, webrtc_peer_connection_state, WebrtcSessionStats, session_stats,
  webrtc_session_stats, state_to_string,
}
use load_test_server.Session.{Session, peer_connection_states}
use load_test_server.Session.Lifecycle.{IsTimed, has_started, has_stopped}
use load_test_server.Session.Tally.{senders, receivers, peer_connection_states_exact}
use load_test_server.Session.Valid.{IsValid}
use load_test_server.Data.{Server, lookup, call_session}
use load_test_server.Handlers.Sessions.{get_stats}
use load_test_server.Webrtc.{GetStatsRequest}
use load_test_server.External.Platform.{Platform}

module _ ⦃P : Platform⦄ where
  open P use {World, by_name}
  open by_name use {entries}

  -- an answer that fits the session
  pub record Describes (x : Session) (r : WebrtcSessionStats) : Type 0 where
    pub states : WebrtcPeerConnectionState
    pub same_states : r.peer_connection_state ≡ some states
    pub same_count : r.num_peer_connections ≡ length (entries x.peer_connections)
    pub sending : states.num_sending ≡ senders (entries x.peer_connections)
    pub all_send : states.num_sending + states.num_not_sending ≡ r.num_peer_connections
    pub receiving : states.num_receiving ≡ receivers (entries x.peer_connections)
    pub all_receive : states.num_receiving + states.num_not_receiving ≡ r.num_peer_connections
    pub same_state : r.state ≡ state_to_string x.state
    pub has_start : is_some r.start_time ≡ has_started x.state
    pub has_stop : is_some r.stop_time ≡ has_stopped x.state

  timestamp_some : (t : Option ℕ) → is_some (systemtime_to_timestamp t) ≡ is_some t
  unfolding systemtime_to_timestamp
  timestamp_some none = refl
  timestamp_some (some t) = refl

  stats-Describes :
      (x : Session) (w : World)
      → IsTimed x
      → length (entries x.peer_connections) < 2 ^ 31
      → Describes x (webrtc_session_stats (session_stats x w).0)
  unfolding webrtc_session_stats session_stats webrtc_peer_connection_state
  stats-Describes x w timed few =
      let (send, all_send, receive, all_receive) = peer_connection_states_exact x few in
      record {
        states = webrtc_peer_connection_state (peer_connection_states x);
        same_states = refl;
        same_count = refl;
        sending = send;
        all_send = all_send;
        receiving = receive;
        all_receive = all_receive;
        same_state = refl;
        has_start = timestamp_some x.start_time ∙ timed.start_known;
        has_stop = timestamp_some x.stop_time ∙ timed.stop_known;
      }

  -- On a valid session with fewer than 2 ^ 31 connections get_stats succeeds, and its answer describes
  -- the session: the connections are counted, those sending and those receiving too, each pair of
  -- counters adds up to the number of connections, the name of the state is given, and there is a
  -- start time just if the session has been started and a stop time just if it has been stopped.
  pub get_stats-Describes :
      (r : GetStatsRequest) (s : Server) (x : Session)
      → lookup r.session_id s ≡ some x
      → IsValid r.session_id x
      → length (entries x.peer_connections) < 2 ^ 31
      → (reply : WebrtcSessionStats) × ((get_stats r s).0 ≡ ok (record { session = some reply }))
        × Describes x reply
  unfolding get_stats
  get_stats-Describes r s x found v few = (
    webrtc_session_stats (session_stats x s.world).0,
    rw (found, get_stats, call_session) refl,
    stats-Describes x s.world v.timed few,
  )
