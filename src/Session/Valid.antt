-- ===== src/Session/Valid.antt =====
-- src/session.rs: the well-formedness of a session under its own methods.
use load_test_server.Prelude.{
  ◌≡◌, Bool, true, String, some, List, [], ◌∷◌, map, arith, is_some, inl, inr, Option-cases,
}
use load_test_server.Result.{Held}
use load_test_server.WebrtcPool.{WebrtcPool}
use load_test_server.PeerConnection.{PeerConnectionManager}
use load_test_server.PeerConnection.Polling.Same.{Same, export_stats-Same}
use load_test_server.Session.{
  Session, start, stop, export_at, export_each, export_peer_connection_stats,
}
use load_test_server.Session.Lifecycle.{IsTimed, Op, starts, stops, call_op, call_op-IsTimed}
use load_test_server.External.Maps.{every-insert}
use load_test_server.External.Platform.{Platform}

module _ ⦃P : Platform⦄ where
  open P use {World, by_name, by_id}
  open by_name use {get, insert, entries}
  open by_id use {get as get_factory}

  -- A connection is kept under its own id, its factory is in the session's pool, and its two receivers
  -- for the observer are both there or both taken.
  pub record IsServed (pool : WebrtcPool) (id : String) (pc : PeerConnectionManager) : Type 0 where
    pub same_id : pc.id ≡ id
    pub has_factory : is_some (get_factory pool.factory_list pc.pool_id) ≡ true
    pub paired : is_some pc.video_track_rx ≡ is_some pc.ice_candidates_rx

  -- A session is kept under its own id, has the times that its state says, and serves its connections.
  pub record IsValid (id : String) (session : Session) : Type 0 where
    pub same_id : session.id ≡ id
    pub timed : IsTimed session
    pub served :
        (pc_id : String) (pc : PeerConnectionManager)
        → get session.peer_connections pc_id ≡ some pc
        → IsServed session.webrtc_pool pc_id pc

  pub call_op-IsValid :
      (op : Op) (id : String) (s : Held Session World)
      → IsValid id s.item
      → IsValid id (call_op op s).1.item
  unfolding start stop
  call_op-IsValid starts id s h = record {
    same_id = ground arith;
    timed = call_op-IsTimed starts s h.timed;
    served = λ j pc found. ground (arith, h.served j pc);
  }
  call_op-IsValid stops id s h = record {
    same_id = ground arith;
    timed = call_op-IsTimed stops s h.timed;
    served = λ j pc found. ground (arith, h.served j pc);
  }

  Same-IsServed :
      {a b : PeerConnectionManager} (pool : WebrtcPool) (id : String)
      → Same a b
      → IsServed pool id b
      → IsServed pool id a
  Same-IsServed pool id s h = record {
    same_id = ground arith;
    has_factory = rw s.same_pool_id h.has_factory;
    paired = ground arith;
  }

  -- a connection put under its id
  pub insert-IsValid :
      (id pc_id : String) (pc : PeerConnectionManager) (session : Session)
      → IsValid id session
      → IsServed session.webrtc_pool pc_id pc
      → IsValid id (record session { peer_connections = insert session.peer_connections pc_id pc })
  insert-IsValid id pc_id pc session h served = record {
    same_id = h.same_id;
    timed = record { start_known = h.timed.start_known; stop_known = h.timed.stop_known };
    served = every-insert by_name session.peer_connections pc_id pc h.served served;
  }

  pub export_at-IsValid :
      (poll : Bool) (id pc_id : String) (s : Held Session World)
      → IsValid id s.item
      → IsValid id (export_at poll pc_id s).item
  unfolding export_at
  export_at-IsValid poll id pc_id s h = elim (Option-cases (get s.item.peer_connections pc_id)) [
    | inl missing ↦ rw (missing, export_at) h
    | inr (pc, found) ↦
        rw (found, export_at)
          (insert-IsValid id pc_id _ s.item h (
            Same-IsServed s.item.webrtc_pool pc_id (export_stats-Same s.item.id poll _)
              (h.served pc_id pc found)))
  ]

  export_each-IsValid :
      (poll : Bool) (id : String) (pc_ids : List String) (s : Held Session World)
      → IsValid id s.item
      → IsValid id (export_each poll pc_ids s).item
  unfolding export_each
  export_each-IsValid poll id [] s h = h
  export_each-IsValid poll id (pc_id ∷ pc_ids) s h =
      export_each-IsValid poll id pc_ids _ (export_at-IsValid poll id pc_id s h)

  pub export-IsValid :
      (poll : Bool) (id : String) (s : Held Session World)
      → IsValid id s.item
      → IsValid id (export_peer_connection_stats poll s).item
  unfolding export_peer_connection_stats
  export-IsValid poll id s h =
      export_each-IsValid poll id (map (λ e. e.0) (entries s.item.peer_connections)) s h
