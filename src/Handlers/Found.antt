-- ===== src/Handlers/Found.antt =====
-- src/handlers.rs: creating a peer connection, and looking it up afterwards.
use load_test_server.Prelude.{ℕ, ◌≡◌, refl, inl, inr, String, some, arith, Option-cases}
use load_test_server.Result.{convert-eq-ok, Result, Held, ok, err, panic, convert}
use load_test_server.Error.{ServerError, status_from}
use load_test_server.WebrtcPool.Balance.{create_cases}
use load_test_server.PeerConnection.{PeerConnectionManager}
use load_test_server.PeerConnection.New.{IsNew, new-IsNew}
use load_test_server.Session.{Session, add_peer_connection, get_peer_connection}
use load_test_server.Data.{Server, lookup, get_session, call_session}
use load_test_server.Data.Laws.{call_session_cases}
use load_test_server.Handlers.PeerConnections.{
  store_made, make_peer_connection, create_peer_connection, find,
}
use load_test_server.Handlers.Calls.{create_peer_connection_state}
use load_test_server.Webrtc.{CreatePeerConnectionRequest}
use load_test_server.External.Platform.{Platform}

module _ ⦃P : Platform⦄ where
  open P use {World, by_name}
  open by_name use {get, get-insert_self}

  -- a new connection under its id
  pub record HasNew (id : String) (x : Session) : Type 0 where
    pub connection : PeerConnectionManager
    pub pool_id : ℕ
    pub present : get x.peer_connections id ≡ some connection
    pub is_new : IsNew id pool_id connection

  store_made_ok :
      (id : String) (n : ℕ) (r : Result ServerError PeerConnectionManager) (s : Held Session World)
      → ((pc : PeerConnectionManager) → r ≡ ok pc → IsNew id n pc)
      → (store_made r s).0 ≡ ok tt
      → HasNew id (store_made r s).1.item
  unfolding store_made add_peer_connection
  store_made_ok id n (ok pc) s new h = record {
    connection = pc;
    pool_id = n;
    present = rw (← (new pc refl).same_id) (get-insert_self s.item.peer_connections pc.id pc);
    is_new = new pc refl;
  }
  store_made_ok id n (err e) s new h = cc
  store_made_ok id n panic s new h = cc

  make_ok :
      (id name : String) (s : Held Session World)
      → (make_peer_connection id name s).0 ≡ ok tt
      → HasNew id (make_peer_connection id name s).1.item
  unfolding make_peer_connection
  make_ok id name s h =
      elim (create_cases id name (record { item = s.item.webrtc_pool; world = s.world })) [
        | inl (nothing, e) ↦ absurd (ground (arith, rw (e, store_made) at h))
        | inr (x, least, e) ↦ rw e (
            store_made_ok id x.0 _ _
              (λ pc made. new-IsNew x.1.peer_connection_factory x.0 id name s.world pc made)
              (rw e at h))
      ]

  -- the session and the connection that are there are found
  pub find_present :
      (id pc_id : String) (s : Server) (x : Session) (pc : PeerConnectionManager)
      → lookup id s ≡ some x
      → get x.peer_connections pc_id ≡ some pc
      → find id pc_id s ≡ (ok (x, pc), s)
  unfolding find
  find_present id pc_id s x pc found present =
      rw (found, get_session) (rw (present, get_peer_connection) refl)

  pub create_result :
      (r : CreatePeerConnectionRequest) (s : Server)
      → (create_peer_connection r s).0
        ≡ convert status_from
            (call_session r.session_id (make_peer_connection r.peer_connection_id r.name) s).0
  unfolding create_peer_connection
  create_result r s = elim (Option-cases (lookup r.session_id s)) [
    | inl missing ↦ rw (missing, get_session, call_session) refl
    | inr (x, found) ↦ rw (found, get_session) refl
  ]

  abbrev FindsNew : String → String → Server → Type 0
  FindsNew id pc_id t =
      (x : Session) × (pc : PeerConnectionManager) × (pool_id : ℕ) × (find id pc_id t
        ≡ (ok (x, pc), t))
      × IsNew pc_id pool_id pc

  finds_new :
      (id pc_id : String) (t : Server) (x : Session)
      → lookup id t ≡ some x
      → HasNew pc_id x
      → FindsNew id pc_id t
  finds_new id pc_id t x found n =
      (x, n.connection, n.pool_id, find_present id pc_id t x n.connection found n.present, n.is_new)

  call_make_ok :
      (id pc_id name : String) (s : Server)
      → (call_session id (make_peer_connection pc_id name) s).0 ≡ ok tt
      → FindsNew id pc_id (call_session id (make_peer_connection pc_id name) s).1
  call_make_ok id pc_id name s h =
      elim (call_session_cases id (make_peer_connection pc_id name) s) [
        | inl (missing, e) ↦ absurd (ground (arith, rw e at h))
        | inr (x, found, e) ↦ rw e (
            finds_new id pc_id _ _ (get-insert_self s.item.sessions id _)
              (make_ok pc_id name (record { item = x; world = s.world }) (rw e at h)))
      ]

  -- Once create_peer_connection has succeeded, the procedures on connections find the connection under
  -- the two ids of the request, and it is new: silent in both directions and with its receivers in place.
  pub create_peer_connection-find :
      (r : CreatePeerConnectionRequest) (s : Server)
      → (create_peer_connection r s).0 ≡ ok tt
      → let t = (create_peer_connection r s).1 in
        (x : Session) × (pc : PeerConnectionManager) × (pool_id : ℕ) × (find r.session_id
            r.peer_connection_id t
          ≡ (ok (x, pc), t))
        × IsNew r.peer_connection_id pool_id pc
  create_peer_connection-find r s h = rw (create_peer_connection_state r s) (
      call_make_ok r.session_id r.peer_connection_id r.name s
        (convert-eq-ok status_from _ (rw (create_result r s) at h)))
