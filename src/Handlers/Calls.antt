-- ===== src/Handlers/Calls.antt =====
-- src/handlers.rs: the branches of observer, get_stats and create_peer_connection.
use load_test_server.Prelude.{◌≡◌, inl, inr, none, some, Option-cases, ◌⊎◌}
use load_test_server.Result.{err, bind-pure-state}
use load_test_server.Error.{status_from, invalid_session_error, not_found}
use load_test_server.PeerConnection.{PeerConnectionManager}
use load_test_server.Session.{Session}
use load_test_server.Data.{Server, lookup, get_session, call_session}
use load_test_server.Handlers.{status}
use load_test_server.Handlers.Sessions
use load_test_server.Handlers.Sessions.{create_session, start_session, stop_session, get_stats}
use load_test_server.Handlers.PeerConnections.{make_peer_connection, create_peer_connection}
use load_test_server.Handlers.Observer.{find_in, take_from, observer}
use load_test_server.Webrtc.{GetStatsRequest, CreatePeerConnectionRequest, ObserverRequest}
use load_test_server.External.Platform.{Platform}

module _ ⦃P : Platform⦄ where
  open P use {World, by_name}
  open by_name use {get}

  -- The observer fails without the session or without the connection, and changes nothing; or it takes
  -- the receivers of that connection of that session.
  pub observer_cases :
      (r : ObserverRequest) (s : Server)
      → ((lookup r.session_id s ≡ none)
          × (observer r s ≡ (err (status_from (invalid_session_error r.session_id)), s)))
        ⊎ ((x : Session) × (lookup r.session_id s ≡ some x)
            × (get x.peer_connections r.peer_connection_id ≡ none)
            × (observer r s ≡ (err (not_found "PeerConnection not found"), s)))
        ⊎ ((x : Session) × (pc : PeerConnectionManager) × (lookup r.session_id s ≡ some x)
            × (get x.peer_connections r.peer_connection_id ≡ some pc)
            × (observer r s ≡ take_from r x pc s))
  unfolding observer
  observer_cases r s = elim (Option-cases (lookup r.session_id s)) [
    | inl missing ↦ inl (missing, rw (missing, observer, get_session))
    | inr (x, found) ↦ elim (Option-cases (get x.peer_connections r.peer_connection_id)) [
      | inl absent ↦
          inr (inl (x, found, absent, rw (found, observer, get_session) (rw (absent, find_in))))
      | inr (pc, present) ↦
          inr
            (inr (x, pc, found, present, rw (found, observer, get_session) (rw (present, find_in))))
    ]
  ]

  pub get_stats_state :
      (r : GetStatsRequest) (s : Server)
      → (get_stats r s).1 ≡ (call_session r.session_id Sessions.read_stats s).1
  unfolding get_stats
  get_stats_state r s = bind-pure-state (status (call_session r.session_id Sessions.read_stats)) _ s

  pub create_peer_connection_state :
      (r : CreatePeerConnectionRequest) (s : Server)
      → (create_peer_connection r s).1
        ≡ (call_session r.session_id (make_peer_connection r.peer_connection_id r.name) s).1
  unfolding create_peer_connection
  create_peer_connection_state r s = elim (Option-cases (lookup r.session_id s)) [
    | inl missing ↦ rw (missing, create_peer_connection, get_session, call_session)
    | inr (x, found) ↦
        rw (found, create_peer_connection, get_session, call_session) (rw (found, call_session))
  ]
