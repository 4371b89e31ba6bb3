-- ===== src/Handlers/Valid.antt =====
-- src/handlers.rs: the well-formedness of sessions under the procedures.
use load_test_server.Prelude.{ℕ, ◌≡◌, refl, ◌∙◌, inl, inr, String, is_some, arith}
use load_test_server.Result.{Result, Held, ok, err, panic}
use load_test_server.Error.{ServerError}
use load_test_server.Log
use load_test_server.WebrtcPool.{WebrtcPool, WebrtcPoolItem}
use load_test_server.WebrtcPool.Create.{fetch_add}
use load_test_server.WebrtcPool.Balance.{create_cases, get-fetch_add}
use load_test_server.PeerConnection
use load_test_server.PeerConnection.{
  PeerConnectionManager, take_video_track_rx, take_ice_candidates_rx,
}
use load_test_server.PeerConnection.New as NewConnection
use load_test_server.Session
use load_test_server.Session.{Session, add_peer_connection}
use load_test_server.Session.New as NewSession
use load_test_server.Session.Lifecycle.{starts, stops}
use load_test_server.Session.Valid.{IsServed, IsValid, call_op-IsValid, insert-IsValid}
use load_test_server.Data.{Server}
use load_test_server.Data.Laws.{Each, Each-write, Each-same, call_session-Each}
use load_test_server.Handlers.Calls.{observer_cases, get_stats_state, create_peer_connection_state}
use load_test_server.Handlers.Create.{create_session_cases}
use load_test_server.Handlers.Sessions
use load_test_server.Handlers.Sessions.{create_session, start_session, stop_session, get_stats}
use load_test_server.Handlers.PeerConnections.{
  store_made, make_peer_connection, create_peer_connection,
}
use load_test_server.Handlers.Observer.{take_receivers, take_from, observer}
use load_test_server.Webrtc.{
  CreateSessionRequest, StartSessionRequest, StopSessionRequest, GetStatsRequest,
  CreatePeerConnectionRequest, ObserverRequest,
}
use load_test_server.External.Platform.{Platform}

module _ ⦃P : Platform⦄ where
  open P use {World, by_name, by_id}
  open by_name use {get, get-empty, insert}
  open by_id use {get as get_factory}

  -- a count in the pool goes up
  fetch_add-IsServed :
      (e : ℕ × WebrtcPoolItem) (pool : WebrtcPool) (id : String) (pc : PeerConnectionManager)
      → IsServed pool id pc
      → IsServed (fetch_add e pool) id pc
  fetch_add-IsServed e pool id pc h = record {
    same_id = h.same_id;
    has_factory = ground (arith, get-fetch_add e pool pc.pool_id, h.has_factory);
    paired = h.paired;
  }

  fetch_add-IsValid :
      (e : ℕ × WebrtcPoolItem) (id : String) (session : Session)
      → IsValid id session
      → IsValid id (record session { webrtc_pool = fetch_add e session.webrtc_pool })
  fetch_add-IsValid e id session h = record {
    same_id = h.same_id;
    timed = record { start_known = h.timed.start_known; stop_known = h.timed.stop_known };
    served = λ j pc found. fetch_add-IsServed e session.webrtc_pool j pc (h.served j pc found);
  }

  -- the new connection has the id that it is kept under, a factory of the pool, and both receivers
  new-IsServed :
      (e : ℕ × WebrtcPoolItem) (pool : WebrtcPool) (id name : String) (w : World)
      (pc : PeerConnectionManager)
      → (PeerConnection.new e.1.peer_connection_factory e.0 id name w).0 ≡ ok pc
      → IsServed (fetch_add e pool) pc.id pc
  new-IsServed e pool id name w pc h =
      let n = NewConnection.new-IsNew e.1.peer_connection_factory e.0 id name w pc h in
      record {
        same_id = refl;
        has_factory = ground (arith, get-fetch_add e pool pc.pool_id, n.same_pool_id);
        paired = ground arith;
      }

  store_made-IsValid :
      (id : String) (r : Result ServerError PeerConnectionManager) (s : Held Session World)
      → ((pc : PeerConnectionManager) → r ≡ ok pc → IsServed s.item.webrtc_pool pc.id pc)
      → IsValid id s.item
      → IsValid id (store_made r s).1.item
  unfolding store_made add_peer_connection
  store_made-IsValid id (ok pc) s served h = insert-IsValid id pc.id pc s.item h (served pc refl)
  store_made-IsValid id (err e) s served h = h
  store_made-IsValid id panic s served h = h

  pub make_peer_connection-IsValid :
      (id pc_id name : String) (s : Held Session World)
      → IsValid id s.item
      → IsValid id (make_peer_connection pc_id name s).1.item
  unfolding make_peer_connection
  make_peer_connection-IsValid id pc_id name s h =
      elim (create_cases pc_id name (record { item = s.item.webrtc_pool; world = s.world })) [
        | inl (nothing, e) ↦ rw (e, make_peer_connection) h
        | inr (x, least, e) ↦
            rw (e, make_peer_connection)
              (store_made-IsValid id _ _
                (λ pc made. new-IsServed x s.item.webrtc_pool pc_id name s.world pc made)
                (fetch_add-IsValid x id s.item h))
      ]

  take_receivers_same :
      (pc : PeerConnectionManager)
      → ((take_receivers pc).1.id ≡ pc.id) × ((take_receivers pc).1.pool_id ≡ pc.pool_id)
  unfolding take_receivers
  take_receivers_same pc = ground arith

  take_receivers_paired :
      (pc : PeerConnectionManager)
      → is_some pc.video_track_rx ≡ is_some pc.ice_candidates_rx
      → let pc' = (take_receivers pc).1 in
        is_some pc'.video_track_rx ≡ is_some pc'.ice_candidates_rx
  unfolding take_receivers
  take_receivers_paired pc h = ground arith

  pub take_receivers-IsServed :
      (pool : WebrtcPool) (id : String) (pc : PeerConnectionManager)
      → IsServed pool id pc
      → IsServed pool id (take_receivers pc).1
  take_receivers-IsServed pool id pc h =
      let (same_id, same_pool_id) = take_receivers_same pc in
      record {
        same_id = same_id ∙ h.same_id;
        has_factory = rw same_pool_id h.has_factory;
        paired = take_receivers_paired pc h.paired;
      }

  pub observer-Each :
      (r : ObserverRequest) (s : Server) → Each IsValid s → Each IsValid (observer r s).1
  unfolding take_from
  observer-Each r s h = elim (observer_cases r s) [
    | inl (missing, e) ↦ rw e h
    | inr (inl (x, found, absent, e)) ↦ rw e h
    | inr (inr (x, pc, found, present, e)) ↦ rw e (
        Each-write r.session_id _ _ s h (
          let v = h.at r.session_id x found in
          insert-IsValid r.session_id r.peer_connection_id _ x v (
            take_receivers-IsServed x.webrtc_pool r.peer_connection_id pc
              (v.served r.peer_connection_id pc present))))
  ]

  pub IsNew-IsValid :
      (r : CreateSessionRequest) (x : Session)
      → NewSession.IsNew r.session_id r.name r.polling_state_s (Log.from_i32 r.log_level) x
      → IsValid r.session_id x
  IsNew-IsValid r x n = record {
    same_id = n.same_id;
    timed = record { start_known = ground arith; stop_known = ground arith };
    served = λ j pc found.
        absurd (ground (arith, n.no_connections, get-empty {V = PeerConnectionManager} j));
  }

  pub create_session-Each :
      (r : CreateSessionRequest) (s : Server) → Each IsValid s → Each IsValid (create_session r s).1
  create_session-Each r s h = elim (create_session_cases r s) [
    | inl (x, _, n, e) ↦ rw e (Each-write r.session_id x _ s h (IsNew-IsValid r x n))
    | inr (inl (x, _, e)) ↦ rw e (Each-same s _ refl h)
    | inr (inr (_, e)) ↦ rw e (Each-same s _ refl h)
  ]

  pub start_session-Each :
      (r : StartSessionRequest) (s : Server) → Each IsValid s → Each IsValid (start_session r s).1
  unfolding start_session
  start_session-Each r s h =
      call_session-Each r.session_id Session.start s
        (λ x v. call_op-IsValid starts r.session_id (record { item = x; world = s.world }) v) h

  pub stop_session-Each :
      (r : StopSessionRequest) (s : Server) → Each IsValid s → Each IsValid (stop_session r s).1
  unfolding stop_session
  stop_session-Each r s h =
      call_session-Each r.session_id Session.stop s
        (λ x v. call_op-IsValid stops r.session_id (record { item = x; world = s.world }) v) h

  pub get_stats-Each :
      (r : GetStatsRequest) (s : Server) → Each IsValid s → Each IsValid (get_stats r s).1
  get_stats-Each r s h = rw (get_stats_state r s) (
      call_session-Each r.session_id Sessions.read_stats s (λ x v. unfold Sessions.read_stats in v)
        h)

  pub create_peer_connection-Each :
      (r : CreatePeerConnectionRequest) (s : Server)
      → Each IsValid s
      → Each IsValid (create_peer_connection r s).1
  create_peer_connection-Each r s h = rw (create_peer_connection_state r s) (
      call_session-Each r.session_id (make_peer_connection r.peer_connection_id r.name) s
        (λ x v.
          make_peer_connection-IsValid r.session_id r.peer_connection_id r.name
            (record { item = x; world = s.world }) v)
        h)
