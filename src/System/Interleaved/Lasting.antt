-- ===== src/System/Interleaved/Lasting.antt =====
-- The connections of a session over an interleaved history.
use load_test_server.Prelude.{
  ◌≡◌, ◌≢◌, refl, sym, subst, inl, inr, Bool, true, is_some, String, List, ◌∷◌, All, arith,
  Option-cases,
}
use load_test_server.Result.{Result, Held, ok, err, panic}
use load_test_server.Error.{ServerError}
use load_test_server.WebrtcPool.Create.{create_peer_connection_manager}
use load_test_server.PeerConnection.{PeerConnectionManager}
use load_test_server.Session.{
  Session, start, stop, export_at, add_peer_connection, get_peer_connection,
}
use load_test_server.Session.Lifecycle.{Op, starts, stops, call_op}
use load_test_server.Data.{Server, lookup, get_session}
use load_test_server.External.Maps.{get-insert_text}
use load_test_server.Handlers.PeerConnections
use load_test_server.Handlers.PeerConnections.{find, make_peer_connection, store_made}
use load_test_server.Handlers.Found.{find_present, create_peer_connection-find}
use load_test_server.System.{create_session, create_peer_connection, handle}
use load_test_server.System.Invariant.{outcome-state}
use load_test_server.System.Interleaved.{Point, request, Process, move, interleave}
use load_test_server.System.Interleaved.Preserved.{At, interleave-At}
use load_test_server.System.Touch.{Change, by_start, by_stop, by_make, by_take, by_export, held}
use load_test_server.Webrtc.{CreatePeerConnectionRequest}
use load_test_server.External.Platform.{Platform}

-- a point that does not make the session anew
abbrev pub NotMade : String → Point → Type 0
NotMade id (request (create_session r)) = r.session_id ≢ id
NotMade id _ = Unit

module _ ⦃P : Platform⦄ where
  open P use {World, by_name}
  open by_name use {get, insert}

  record HasConnection (pc_id : String) (x : Session) : Type 0 where
    present : is_some (get x.peer_connections pc_id) ≡ true

  call_op-peer_connections :
      (op : Op) (s : Held Session World)
      → (call_op op s).1.item.peer_connections ≡ s.item.peer_connections
  unfolding start stop
  call_op-peer_connections starts s = ground arith
  call_op-peer_connections stops s = ground arith

  insert-HasConnection :
      (pc_id k : String) (c : PeerConnectionManager) (x : Session)
      → HasConnection pc_id x
      → HasConnection pc_id (record x { peer_connections = insert x.peer_connections k c })
  insert-HasConnection pc_id k c x h = record {
    present = ground (arith, get-insert_text by_name x.peer_connections k pc_id c, h.present);
  }

  store_made-HasConnection :
      (pc_id : String) (r : Result ServerError PeerConnectionManager) (s : Held Session World)
      → HasConnection pc_id s.item
      → HasConnection pc_id (store_made r s).1.item
  unfolding store_made add_peer_connection
  store_made-HasConnection pc_id (ok pc) s h = insert-HasConnection pc_id pc.id pc s.item h
  store_made-HasConnection pc_id (err e) s h = h
  store_made-HasConnection pc_id panic s h = h

  make-HasConnection :
      (pc_id id name : String) (s : Held Session World)
      → HasConnection pc_id s.item
      → HasConnection pc_id (make_peer_connection id name s).1.item
  unfolding make_peer_connection
  make-HasConnection pc_id id name s h =
      let (r, t) =
        create_peer_connection_manager id name
          (record { item = s.item.webrtc_pool; world = s.world }) in
      store_made-HasConnection pc_id r
        (record { item = record (s.item) { webrtc_pool = t.item }; world = t.world })
        (record { present = h.present })

  export-HasConnection :
      (pc_id : String) (poll : Bool) (k : String) (s : Held Session World)
      → HasConnection pc_id s.item
      → HasConnection pc_id (export_at poll k s).item
  unfolding export_at
  export-HasConnection pc_id poll k s h = elim (Option-cases (get s.item.peer_connections k)) [
    | inl missing ↦ rw (missing, export_at) h
    | inr (pc, found) ↦ rw (found, export_at) (insert-HasConnection pc_id k _ s.item h)
  ]

  Change-HasConnection :
      (id pc_id : String) (e : Point) (x y : Session)
      → Change e id x y
      → HasConnection pc_id x
      → HasConnection pc_id y
  Change-HasConnection id pc_id e x y (by_start r w asked names made) h =
      subst (HasConnection pc_id) (sym made)
        (record { present = rw (call_op-peer_connections starts (held x w)) h.present })
  Change-HasConnection id pc_id e x y (by_stop r w asked names made) h =
      subst (HasConnection pc_id) (sym made)
        (record { present = rw (call_op-peer_connections stops (held x w)) h.present })
  Change-HasConnection id pc_id e x y (by_make r w asked names made) h =
      subst (HasConnection pc_id) (sym made)
        (make-HasConnection pc_id r.peer_connection_id r.name (held x w) h)
  Change-HasConnection id pc_id e x y (by_take r pc asked names present made) h =
      subst (HasConnection pc_id) (sym made) (insert-HasConnection pc_id r.peer_connection_id _ x h)
  Change-HasConnection id pc_id e x y (by_export poll k w asked made) h =
      subst (HasConnection pc_id) (sym made) (export-HasConnection pc_id poll k (held x w) h)

  find_some :
      (id pc_id : String) (s t : Server) (x : Session) (pc : PeerConnectionManager)
      → find id pc_id s ≡ (ok (x, pc), t)
      → At id (HasConnection pc_id) s
  unfolding find
  find_some id pc_id s t x pc h = elim (Option-cases (lookup id s)) [
    | inl missing ↦ absurd (ground (arith, rw (missing, find, get_session) at h))
    | inr (y, found) ↦ elim (Option-cases (get y.peer_connections pc_id)) [
      | inl absent ↦
          absurd (
            ground
              (arith, rw (absent, get_peer_connection) at (rw (found, find, get_session) at h)))
      | inr (c, present) ↦ record {
        session = y;
        found = found;
        holds = record { present = rw present refl };
      }
    ]
  ]

  some_find :
      (id pc_id : String) (s : Server)
      → At id (HasConnection pc_id) s
      → (x : Session) × (pc : PeerConnectionManager) × (find id pc_id s ≡ (ok (x, pc), s))
  some_find id pc_id s h = elim (Option-cases (get h.session.peer_connections pc_id)) [
    | inl missing ↦ absurd (cc (h.holds.present, missing))
    | inr (pc, there) ↦ (h.session, pc, find_present id pc_id s h.session pc h.found there)
  ]

  -- Once create_peer_connection has succeeded, the procedures on connections find a connection under the
  -- two ids of the request, whatever requests and steps of the metrics task come then, until the
  -- session is made anew.
  pub interleave-find :
      (r : CreatePeerConnectionRequest) (es : List Point) (p : Process)
      → (PeerConnections.create_peer_connection r p.server).0 ≡ ok tt
      → All (NotMade r.session_id) es
      → let s = (interleave (request (create_peer_connection r) ∷ es) p).server in
        (x : Session) × (pc : PeerConnectionManager) × (find r.session_id r.peer_connection_id s
          ≡ (ok (x, pc), s))
  unfolding interleave move handle
  interleave-find r es p made spared =
      let (x, pc, n, e, new) = create_peer_connection-find r p.server made in
      some_find r.session_id r.peer_connection_id _ (
        interleave-At {Good = NotMade r.session_id} {id = r.session_id}
          {R = HasConnection r.peer_connection_id}
          (λ e a b good c h. Change-HasConnection r.session_id r.peer_connection_id e a b c h)
          (λ e q good asked names. subst (NotMade r.session_id) asked good names) es
          (move (request (create_peer_connection r)) p) spared
          (rw outcome-state (find_some r.session_id r.peer_connection_id _ _ x pc e)))
