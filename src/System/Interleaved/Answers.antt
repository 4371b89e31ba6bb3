-- ===== src/System/Interleaved/Answers.antt =====
-- src/handlers.rs: what clients are answered after an interleaved history.
use load_test_server.Prelude.{◌^◌, ◌<◌, ◌≡◌, refl, String, some, List, length, is_some, true}
use load_test_server.Result.{Exec, ok, ◌>>=◌}
use load_test_server.Result.Succeeds.{Succeeds, succeeds_rules}
use load_test_server.Error.{Status}
use load_test_server.PeerConnection.{PeerConnectionManager}
use load_test_server.PeerConnection.Works.{
  offer-Succeeds, answer-Succeeds, local-Succeeds, remote-Succeeds, add_track-Succeeds,
  add_transceiver-Succeeds,
}
use load_test_server.Session.{Session}
use load_test_server.Data.{Server, lookup, get_session}
use load_test_server.Handlers.PeerConnections
use load_test_server.Handlers.PeerConnections.{find}
use load_test_server.Handlers.Observer
use load_test_server.Handlers.Observer.{find_in}
use load_test_server.Handlers.Found.{find_present}
use load_test_server.Handlers.Stats.{Describes, get_stats-Describes}
use load_test_server.Handlers.Sessions
use load_test_server.Stats.{WebrtcSessionStats}
use load_test_server.System.{
  Request, create_session, start_session, stop_session, create_peer_connection, observer, get_stats,
  create_offer, create_answer, set_local_description, set_remote_description, add_track,
  add_transceiver, get_transceivers, outcome, handle,
}
use load_test_server.System.Interleaved.{Point, launch, interleave}
use load_test_server.System.Interleaved.Valid.{interleave-launch-IsValid}
use load_test_server.Webrtc.{GetStatsRequest}
use load_test_server.External.Reliable.{Negotiates}
use load_test_server.External.Platform.{Platform}

module _ ⦃P : Platform⦄ where
  open P use {World, by_name, by_id}
  open by_name use {get, entries}
  open by_id use {get as get_factory}

  -- Whatever requests came between any two steps of the metrics task before, get_stats on a session in
  -- the map with fewer than 2 ^ 31 connections succeeds, and its answer describes the session: the
  -- connections are counted, those sending and those receiving too, each pair of counters adds up to
  -- the number of connections, the name of the state is given, and there is a start time just if the
  -- session has been started and a stop time just if it has been stopped.
  pub get_stats-interleave :
      (w : World) (es : List Point) (r : GetStatsRequest) (x : Session)
      → lookup r.session_id (interleave es (launch w)).server ≡ some x
      → length (entries x.peer_connections) < 2 ^ 31
      → (reply : WebrtcSessionStats) × ((Sessions.get_stats r (interleave es (launch w)).server).0
          ≡ ok (record { session = some reply }))
        × Describes x reply
  get_stats-interleave w es r x found few =
      get_stats-Describes r (interleave es (launch w)).server x found
        ((interleave-launch-IsValid w es).at r.session_id x found) few

  -- a connection under its ids
  pub record Present (id pc_id : String) (s : Server) (x : Session) (pc : PeerConnectionManager)
      : Type 0 where
    pub found : lookup id s ≡ some x
    pub present : get x.peer_connections pc_id ≡ some pc

  -- a request that works on one connection, which is there
  abbrev pub WorksOn : Request → Server → Session → PeerConnectionManager → Type 0
  WorksOn (create_offer r) = Present r.session_id r.peer_connection_id
  WorksOn (create_answer r) = Present r.session_id r.peer_connection_id
  WorksOn (set_local_description r) = Present r.session_id r.peer_connection_id
  WorksOn (set_remote_description r) = Present r.session_id r.peer_connection_id
  WorksOn (add_track r) = Present r.session_id r.peer_connection_id
  WorksOn (add_transceiver r) = Present r.session_id r.peer_connection_id
  WorksOn (get_transceivers r) = Present r.session_id r.peer_connection_id
  WorksOn _ = λ s x pc. ⊥

  -- a procedure that finds the connection, and goes on without an error
  Present-ok :
      {A : Type 0} {id pc_id : String} {s : Server} {x : Session} {pc : PeerConnectionManager}
      (rest : Session × PeerConnectionManager → Exec Server Status A)
      → Present id pc_id s x pc
      → Succeeds (rest (x, pc))
      → (outcome (find id pc_id >>= rest) s).0 ≡ ok tt
  Present-ok {id} {pc_id} {s} {x} {pc} rest h works =
      let (a, e) = works.returns s in
      rw (find_present id pc_id s x pc h.found h.present) (rw e refl)

  module _ (negotiates : Negotiates) where
    handle-ok :
        (r : Request) (s : Server) (x : Session) (pc : PeerConnectionManager)
        → WorksOn r s x pc
        → ((id pc_id : String)
            → Present id pc_id s x pc
            → is_some (get_factory x.webrtc_pool.factory_list pc.pool_id) ≡ true)
        → (handle r s).0 ≡ ok tt
    unfolding handle PeerConnections.create_offer PeerConnections.create_answer
        PeerConnections.set_local_description PeerConnections.set_remote_description
        PeerConnections.add_track PeerConnections.add_transceiver Observer.get_transceivers
    handle-ok (create_offer r) s x pc h has_factory =
        Present-ok _ h (search (succeeds_rules, offer-Succeeds negotiates))
    handle-ok (create_answer r) s x pc h has_factory =
        Present-ok _ h (search (succeeds_rules, answer-Succeeds negotiates))
    handle-ok (set_local_description r) s x pc h has_factory =
        Present-ok _ h (search (succeeds_rules, local-Succeeds negotiates))
    handle-ok (set_remote_description r) s x pc h has_factory =
        Present-ok _ h (search (succeeds_rules, remote-Succeeds negotiates))
    handle-ok (add_track r) s x pc h has_factory = Present-ok _ h (
        search (
          succeeds_rules,
          add_track-Succeeds negotiates pc x.webrtc_pool
              (has_factory r.session_id r.peer_connection_id h),
        ))
    handle-ok (add_transceiver r) s x pc h has_factory = Present-ok _ h (
        search (
          succeeds_rules,
          add_transceiver-Succeeds negotiates pc x.webrtc_pool
              (has_factory r.session_id r.peer_connection_id h),
        ))
    handle-ok (get_transceivers r) s x pc h has_factory =
        rw (h.found, get_session) (rw (h.present, find_in) refl)
    handle-ok (create_session r) s x pc h has_factory = absurd h
    handle-ok (start_session r) s x pc h has_factory = absurd h
    handle-ok (stop_session r) s x pc h has_factory = absurd h
    handle-ok (get_stats r) s x pc h has_factory = absurd h
    handle-ok (create_peer_connection r) s x pc h has_factory = absurd h
    handle-ok (observer r) s x pc h has_factory = absurd h

    -- If the calls of libwebrtc do not fail that negotiate over a connection and add media to it, then
    -- whatever requests came between any two steps of the metrics task before, a request to make or
    -- set a description, to add a track or a transceiver, or to list the transceivers succeeds on
    -- every connection that its session has.
    pub handle-interleave-ok :
        (w : World) (es : List Point) (r : Request) (x : Session) (pc : PeerConnectionManager)
        → WorksOn r (interleave es (launch w)).server x pc
        → (handle r (interleave es (launch w)).server).0 ≡ ok tt
    handle-interleave-ok w es r x pc h =
        handle-ok r (interleave es (launch w)).server x pc h (λ id pc_id there.
          (((interleave-launch-IsValid w es).at id x there.found).served pc_id pc
            there.present).has_factory)
