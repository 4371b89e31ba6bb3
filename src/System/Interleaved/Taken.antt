-- ===== src/System/Interleaved/Taken.antt =====
-- The connections that an observer has taken, over one step of the server.
use text.Mathlib.TextEquality.{eq_iff}
use text.Mathlib.Text.{◌==◌ as str_eq}
use load_test_server.Prelude.{
  ◌≡◌, ◌≢◌, refl, sym, ap, subst, ◌∙◌, inl, inr, Bool, String, none, some, arith, Bool-cases,
  Option-cases,
}
use load_test_server.Result.{Result, Held, ok, err, panic}
use load_test_server.Error.{ServerError}
use load_test_server.WebrtcPool.Balance.{create_cases}
use load_test_server.PeerConnection.{PeerConnectionManager}
use load_test_server.PeerConnection.New.{new-IsNew}
use load_test_server.PeerConnection.Polling.Same.{export_stats-Same}
use load_test_server.Session
use load_test_server.Session.{Session, export_at, add_peer_connection}
use load_test_server.Session.Lifecycle.{Op, starts, stops, call_op}
use load_test_server.External.Maps.{get-insert_text}
use load_test_server.Handlers.PeerConnections.{make_peer_connection, store_made}
use load_test_server.Handlers.Observer.{take_receivers}
use load_test_server.System.{create_session, create_peer_connection}
use load_test_server.System.Interleaved.{Point, request}
use load_test_server.System.Touch.{Change, by_start, by_stop, by_make, by_take, by_export, held}
use load_test_server.Webrtc.{ObserverRequest}
use load_test_server.External.Platform.{Platform}

-- a point that makes neither the session nor the connection that an observer names
abbrev pub Spares : ObserverRequest → Point → Type 0
Spares r (request (create_session c)) = c.session_id ≢ r.session_id
Spares r (request (create_peer_connection c)) =
    ¬ ((c.session_id ≡ r.session_id) × (c.peer_connection_id ≡ r.peer_connection_id))
Spares r _ = Unit {0}

module _ ⦃P : Platform⦄ where
  open P use {World, by_name, Receiver, VideoTransceiver, IceCandidate}
  open by_name use {get, insert, get-insert_self}

  -- the connection is there, and an observer has its receivers
  pub record IsTaken (pc_id : String) (x : Session) : Type 0 where
    pub connection : PeerConnectionManager
    pub present : get x.peer_connections pc_id ≡ some connection
    pub taken : connection.video_track_rx ≡ none

  IsTaken-same :
      (pc_id : String) (x y : Session)
      → y.peer_connections ≡ x.peer_connections
      → IsTaken pc_id x
      → IsTaken pc_id y
  IsTaken-same pc_id x y same h = record {
    connection = h.connection;
    present = ground (arith, same, h.present);
    taken = h.taken;
  }

  IsTaken-insert :
      (pc_id k : String) (c : PeerConnectionManager) (x : Session)
      → (k ≡ pc_id → c.video_track_rx ≡ none)
      → IsTaken pc_id x
      → IsTaken pc_id (record x { peer_connections = insert x.peer_connections k c })
  IsTaken-insert pc_id k c x none_left h = elim (Bool-cases (str_eq k pc_id)) [
    | inl e ↦ record {
      connection = c;
      present = ground (arith, get-insert_text by_name x.peer_connections k pc_id c, e);
      taken = none_left ((eq_iff k pc_id).0 e);
    }
    | inr e ↦ record {
      connection = h.connection;
      present = ground (arith, get-insert_text by_name x.peer_connections k pc_id c, e, h.present);
      taken = h.taken;
    }
  ]

  -- the connection under an equal id is the one that was taken
  same_taken :
      (k pc_id : String) (x : Session) (pc : PeerConnectionManager)
      → k ≡ pc_id
      → get x.peer_connections k ≡ some pc
      → IsTaken pc_id x
      → pc.video_track_rx ≡ none
  same_taken k pc_id x pc e found h =
      ground (arith, ap (get x.peer_connections) e, found, h.present, h.taken)

  call_op_connections :
      (op : Op) (s : Held Session World)
      → (call_op op s).1.item.peer_connections ≡ s.item.peer_connections
  unfolding Session.start Session.stop
  call_op_connections starts s = ground arith
  call_op_connections stops s = ground arith

  store_made-IsTaken :
      (pc_id id : String) (r : Result ServerError PeerConnectionManager) (s : Held Session World)
      → ((pc : PeerConnectionManager) → r ≡ ok pc → pc.id ≡ id)
      → id ≢ pc_id
      → IsTaken pc_id s.item
      → IsTaken pc_id (store_made r s).1.item
  unfolding store_made add_peer_connection
  store_made-IsTaken pc_id id (ok pc) s named other h =
      IsTaken-insert pc_id pc.id pc s.item (λ e. absurd (other (sym (named pc refl) ∙ e))) h
  store_made-IsTaken pc_id id (err e) s named other h = h
  store_made-IsTaken pc_id id panic s named other h = h

  make-IsTaken :
      (pc_id id name : String) (s : Held Session World)
      → id ≢ pc_id
      → IsTaken pc_id s.item
      → IsTaken pc_id (make_peer_connection id name s).1.item
  unfolding make_peer_connection
  make-IsTaken pc_id id name s other h =
      elim (create_cases id name (record { item = s.item.webrtc_pool; world = s.world })) [
        | inl (nothing, e) ↦ rw (e, make_peer_connection) h
        | inr (x, least, e) ↦
            rw (e, make_peer_connection)
              (store_made-IsTaken pc_id id _ _
                (λ pc made.
                  (new-IsNew x.1.peer_connection_factory x.0 id name s.world pc made).same_id)
                other (IsTaken-same pc_id s.item _ refl h))
      ]

  take_receivers_none :
      (pc : PeerConnectionManager)
      → pc.video_track_rx ≡ none
      → (take_receivers pc).1.video_track_rx ≡ none
  unfolding take_receivers
  take_receivers_none pc h = ground arith

  export_at-IsTaken :
      (pc_id k : String) (poll : Bool) (s : Held Session World)
      → IsTaken pc_id s.item
      → IsTaken pc_id (export_at poll k s).item
  unfolding export_at
  export_at-IsTaken pc_id k poll s h = elim (Option-cases (get s.item.peer_connections k)) [
    | inl missing ↦ rw (missing, export_at) h
    | inr (pc, found) ↦
        rw (found, export_at)
          (IsTaken-insert pc_id k _ s.item
            (λ e.
              let same = export_stats-Same s.item.id poll (record { item = pc; world = s.world }) in
              same.same_video_track_rx ∙ same_taken k pc_id s.item pc e found h)
            h)
  ]

  pub Change-IsTaken :
      (r : ObserverRequest) (e : Point) (x y : Session)
      → Spares r e
      → Change e r.session_id x y
      → IsTaken r.peer_connection_id x
      → IsTaken r.peer_connection_id y
  Change-IsTaken r e x y spared (by_start a w asked names made) h =
      IsTaken-same r.peer_connection_id x y
        (ap (λ (z : Session). z.peer_connections) made ∙ call_op_connections starts (held x w)) h
  Change-IsTaken r e x y spared (by_stop a w asked names made) h =
      IsTaken-same r.peer_connection_id x y
        (ap (λ (z : Session). z.peer_connections) made ∙ call_op_connections stops (held x w)) h
  Change-IsTaken r e x y spared (by_make a w asked names made) h =
      subst (IsTaken r.peer_connection_id) (sym made) (
        make-IsTaken r.peer_connection_id a.peer_connection_id a.name (held x w)
          (λ same. subst (Spares r) asked spared (names, same)) h)
  Change-IsTaken r e x y spared (by_take a pc asked names present made) h =
      subst (IsTaken r.peer_connection_id) (sym made) (
        IsTaken-insert r.peer_connection_id a.peer_connection_id _ x
          (λ same.
            take_receivers_none pc
              (same_taken a.peer_connection_id r.peer_connection_id x pc same present h))
          h)
  Change-IsTaken r e x y spared (by_export poll pc_id w asked made) h =
      subst (IsTaken r.peer_connection_id) (sym made)
        (export_at-IsTaken r.peer_connection_id pc_id poll (held x w) h)
