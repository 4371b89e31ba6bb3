-- ===== src/Handlers/Frame.antt =====
-- src/handlers.rs: the sessions that a request does not name.
use load_test_server.Prelude.{refl, inl, inr}
use load_test_server.Data.{Server}
use load_test_server.Data.Laws.{Frame, Frame-same, Frame-write, call_session-Frame}
use load_test_server.Session
use load_test_server.Handlers.Create.{create_session_cases}
use load_test_server.Handlers.Sessions
use load_test_server.Handlers.Sessions.{create_session, start_session, stop_session, get_stats}
use load_test_server.Handlers.PeerConnections.{make_peer_connection, create_peer_connection}
use load_test_server.Handlers.Observer.{observer, take_from}
use load_test_server.Handlers.Calls.{observer_cases, get_stats_state, create_peer_connection_state}
use load_test_server.Webrtc.{
  CreateSessionRequest, StartSessionRequest, StopSessionRequest, GetStatsRequest,
  CreatePeerConnectionRequest, ObserverRequest,
}
use load_test_server.External.Platform.{Platform}

module _ ⦃P : Platform⦄ where
  pub create_session-Frame :
      (r : CreateSessionRequest) (s : Server) → Frame r.session_id s (create_session r s).1
  create_session-Frame r s = elim (create_session_cases r s) [
    | inl (x, _, n, e) ↦ rw e (Frame-write r.session_id x _ s)
    | inr (inl (x, _, e)) ↦ rw e (Frame-same r.session_id s _ refl)
    | inr (inr (_, e)) ↦ rw e (Frame-same r.session_id s _ refl)
  ]

  pub start_session-Frame :
      (r : StartSessionRequest) (s : Server) → Frame r.session_id s (start_session r s).1
  unfolding start_session
  start_session-Frame r s = call_session-Frame r.session_id Session.start s

  pub stop_session-Frame :
      (r : StopSessionRequest) (s : Server) → Frame r.session_id s (stop_session r s).1
  unfolding stop_session
  stop_session-Frame r s = call_session-Frame r.session_id Session.stop s

  pub get_stats-Frame : (r : GetStatsRequest) (s : Server) → Frame r.session_id s (get_stats r s).1
  get_stats-Frame r s =
      rw (get_stats_state r s) (call_session-Frame r.session_id Sessions.read_stats s)

  pub create_peer_connection-Frame :
      (r : CreatePeerConnectionRequest) (s : Server)
      → Frame r.session_id s (create_peer_connection r s).1
  create_peer_connection-Frame r s =
      rw (create_peer_connection_state r s)
        (call_session-Frame r.session_id (make_peer_connection r.peer_connection_id r.name) s)

  pub observer-Frame : (r : ObserverRequest) (s : Server) → Frame r.session_id s (observer r s).1
  unfolding take_from
  observer-Frame r s = elim (observer_cases r s) [
    | inl (missing, e) ↦ rw e (Frame-same r.session_id s s refl)
    | inr (inl (x, found, absent, e)) ↦ rw e (Frame-same r.session_id s s refl)
    | inr (inr (x, pc, found, present, e)) ↦ rw e (Frame-write r.session_id _ _ s)
  ]
