-- ===== src/System/Errors.antt =====
-- src/handlers.rs: requests that name a session or a connection which does not exist.
use Prim.Native.String.{◌++◌}
use load_test_server.Session.{Session, get_peer_connection}
use load_test_server.Handlers.Observer.{find_in}
use load_test_server.Error.{Status, internal, not_found, to_string}
use load_test_server.Prelude.{String, some, ◌≡◌, refl, Bool, true, false, none}
use load_test_server.Result.{err}
use load_test_server.Error.{status_from, invalid_session_error}
use load_test_server.Data.{Server, lookup, get_session, call_session}
use load_test_server.Handlers.Sessions
use load_test_server.Handlers.PeerConnections
use load_test_server.Handlers.PeerConnections.{find}
use load_test_server.Handlers.Observer
use load_test_server.System.Invariant.{target}
use load_test_server.System.{
  Request, create_session, start_session, stop_session, get_stats, create_peer_connection,
  create_offer, create_answer, set_local_description, set_remote_description, add_track,
  add_transceiver, observer, get_transceivers, handle,
}
use load_test_server.External.Platform.{Platform}

abbrev pub creates : Request → Bool
creates (create_session r) = true
creates _ = false

-- the requests on a connection, and the connection that they name
abbrev pub on_connection : Request → Bool
on_connection (create_session r) = false
on_connection (start_session r) = false
on_connection (stop_session r) = false
on_connection (get_stats r) = false
on_connection (create_peer_connection r) = false
on_connection _ = true

abbrev pub connection : Request → String
connection (create_offer r) = r.peer_connection_id
connection (create_answer r) = r.peer_connection_id
connection (set_local_description r) = r.peer_connection_id
connection (set_remote_description r) = r.peer_connection_id
connection (add_track r) = r.peer_connection_id
connection (add_transceiver r) = r.peer_connection_id
connection (observer r) = r.peer_connection_id
connection (get_transceivers r) = r.peer_connection_id
connection _ = ""

-- what the client gets if it is not there: two procedures look it up themselves
abbrev pub absent_status : Request → Status
absent_status (observer r) = not_found "PeerConnection not found"
absent_status (get_transceivers r) = not_found "PeerConnection not found"
absent_status r =
    internal (
      "PeerConnection "
      ++ ("Peer connection " ++ connection r ++ " not found")
      ++ " does not exist")

module _ ⦃P : Platform⦄ where
  open P use {by_name}
  open by_name use {get}

  -- A request that names a session which does not exist fails with the status for that session and
  -- changes nothing at all, unless it is the request that creates it.
  pub handle_missing :
      (r : Request) (s : Server)
      → creates r ≡ false
      → lookup (target r) s ≡ none
      → handle r s ≡ (err (status_from (invalid_session_error (target r))), s)
  unfolding handle Sessions.start_session Sessions.stop_session Sessions.get_stats
      PeerConnections.create_peer_connection PeerConnections.create_offer
      PeerConnections.create_answer PeerConnections.set_local_description
      PeerConnections.set_remote_description PeerConnections.add_track
      PeerConnections.add_transceiver Observer.observer Observer.get_transceivers
  handle_missing (create_session r) s h missing = cc
  handle_missing (start_session r) s h missing =
      rw (missing, Sessions.start_session, call_session) refl
  handle_missing (stop_session r) s h missing =
      rw (missing, Sessions.stop_session, call_session) refl
  handle_missing (get_stats r) s h missing = rw (missing, Sessions.get_stats, call_session) refl
  handle_missing (create_peer_connection r) s h missing =
      rw (missing, PeerConnections.create_peer_connection, get_session) refl
  handle_missing (create_offer r) s h missing =
      rw (missing, PeerConnections.create_offer, find, get_session) refl
  handle_missing (create_answer r) s h missing =
      rw (missing, PeerConnections.create_answer, find, get_session) refl
  handle_missing (set_local_description r) s h missing =
      rw (missing, PeerConnections.set_local_description, find, get_session) refl
  handle_missing (set_remote_description r) s h missing =
      rw (missing, PeerConnections.set_remote_description, find, get_session) refl
  handle_missing (add_track r) s h missing =
      rw (missing, PeerConnections.add_track, find, get_session) refl
  handle_missing (add_transceiver r) s h missing =
      rw (missing, PeerConnections.add_transceiver, find, get_session) refl
  handle_missing (observer r) s h missing = rw (missing, Observer.observer, get_session) refl
  handle_missing (get_transceivers r) s h missing =
      rw (missing, Observer.get_transceivers, get_session) refl

  -- A request on a connection that its session does not have fails and changes nothing: observer and
  -- get_transceivers with NotFound, and the others with Internal and a text that names the connection,
  -- put into the sentence of the error a second time.
  pub handle_absent :
      (r : Request) (s : Server) (x : Session)
      → on_connection r ≡ true
      → lookup (target r) s ≡ some x
      → get x.peer_connections (connection r) ≡ none
      → handle r s ≡ (err (absent_status r), s)
  unfolding handle PeerConnections.create_offer PeerConnections.create_answer
      PeerConnections.set_local_description PeerConnections.set_remote_description
      PeerConnections.add_track PeerConnections.add_transceiver Observer.observer
      Observer.get_transceivers status_from to_string
  handle_absent (create_session r) s x h found absent = cc
  handle_absent (start_session r) s x h found absent = cc
  handle_absent (stop_session r) s x h found absent = cc
  handle_absent (get_stats r) s x h found absent = cc
  handle_absent (create_peer_connection r) s x h found absent = cc
  handle_absent (create_offer r) s x h found absent =
      rw (found, PeerConnections.create_offer, find, get_session)
        (rw (absent, get_peer_connection) refl)
  handle_absent (create_answer r) s x h found absent =
      rw (found, PeerConnections.create_answer, find, get_session)
        (rw (absent, get_peer_connection) refl)
  handle_absent (set_local_description r) s x h found absent =
      rw (found, PeerConnections.set_local_description, find, get_session)
        (rw (absent, get_peer_connection) refl)
  handle_absent (set_remote_description r) s x h found absent =
      rw (found, PeerConnections.set_remote_description, find, get_session)
        (rw (absent, get_peer_connection) refl)
  handle_absent (add_track r) s x h found absent =
      rw (found, PeerConnections.add_track, find, get_session)
        (rw (absent, get_peer_connection) refl)
  handle_absent (add_transceiver r) s x h found absent =
      rw (found, PeerConnections.add_transceiver, find, get_session)
        (rw (absent, get_peer_connection) refl)
  handle_absent (observer r) s x h found absent =
      rw (found, Observer.observer, get_session) (rw (absent, find_in) refl)
  handle_absent (get_transceivers r) s x h found absent =
      rw (found, Observer.get_transceivers, get_session) (rw (absent, find_in) refl)
