-- ===== src/Handlers/Connections.antt =====
-- src/handlers.rs, src/peer_connection.rs: the tracks and the observers of a peer connection.
use load_test_server.Prelude.{◌≡◌, refl, inl, inr, String, some, arith, Option-cases}
use load_test_server.Result.{convert-eq-ok, ok, err}
use load_test_server.Error.{internal_error, status_from}
use load_test_server.WebrtcPool.{WebrtcPoolItem}
use load_test_server.PeerConnection.{PeerConnectionManager, webrtc}
use load_test_server.PeerConnection.Media.{create_track}
use load_test_server.Session.{Session}
use load_test_server.Session.Valid.{IsValid}
use load_test_server.Data.{Server, lookup, get_session}
use load_test_server.Handlers.Observer.{observer, find_in, take_from, take_receivers}
use load_test_server.Handlers.Calls.{observer_cases}
use load_test_server.Webrtc.{ObserverRequest}
use load_test_server.External.Platform.{Platform}

module _ ⦃P : Platform⦄ where
  open P use {
    World, by_name, by_id, Receiver, VideoTransceiver, IceCandidate, VideoTrackSource,
    create_video_track,
  }
  open by_name use {get, insert, get-insert_self}
  open by_id use {get as get_factory}

  -- A track for a connection of a valid session is made with a factory of the session's pool: the
  -- answer is libwebrtc's, and the error for an unknown factory id does not occur.
  pub create_track-IsValid :
      (id pc_id label : String) (x : Session) (pc : PeerConnectionManager)
      (source : VideoTrackSource) (w : World)
      → IsValid id x
      → get x.peer_connections pc_id ≡ some pc
      → (item : WebrtcPoolItem) × (get_factory x.webrtc_pool.factory_list pc.pool_id ≡ some item)
        × (create_track pc.pool_id x.webrtc_pool source label w
            ≡ webrtc (create_video_track item.peer_connection_factory label source) w)
  unfolding create_track
  create_track-IsValid id pc_id label x pc source w v present =
      elim (Option-cases (get_factory x.webrtc_pool.factory_list pc.pool_id)) [
        | inl missing ↦ absurd (ground (arith, missing, (v.served pc_id pc present).has_factory))
        | inr (item, found) ↦ (item, found, rw (found, create_track) refl)
      ]

  take_receivers_ok :
      (pc : PeerConnectionManager) (rxs : Receiver VideoTransceiver × Receiver IceCandidate)
      → (take_receivers pc).0 ≡ ok rxs
      → (take_receivers (take_receivers pc).1).0
        ≡ err (internal_error "video_track_rx already taken")
  unfolding take_receivers
  take_receivers_ok pc rxs h = ground arith

  pub observer_found :
      (r : ObserverRequest) (s : Server) (x : Session) (pc : PeerConnectionManager)
      → lookup r.session_id s ≡ some x
      → get x.peer_connections r.peer_connection_id ≡ some pc
      → observer r s ≡ take_from r x pc s
  unfolding observer
  observer_found r s x pc found present =
      rw (found, observer, get_session) (rw (present, find_in) refl)

  -- the connection that an observer leaves behind
  take_from_again :
      (r : ObserverRequest) (s : Server) (x : Session) (pc : PeerConnectionManager)
      (rxs : Receiver VideoTransceiver × Receiver IceCandidate)
      → (take_from r x pc s).0 ≡ ok rxs
      → (observer r (take_from r x pc s).1).0
        ≡ err (status_from (internal_error "video_track_rx already taken"))
  unfolding take_from
  take_from_again r s x pc rxs h =
      let again = take_receivers_ok pc rxs (convert-eq-ok status_from (take_receivers pc).0 h) in
      rw
        (observer_found r (take_from r x pc s).1 _ _
          (get-insert_self s.item.sessions r.session_id _)
          (get-insert_self x.peer_connections r.peer_connection_id _))
        (rw again refl)

  -- Once an observer of a connection has succeeded, the same request, made to the server that it
  -- leaves, fails with the internal error that the receiver is already taken.
  pub observer_once :
      (r : ObserverRequest) (s : Server) (rxs : Receiver VideoTransceiver × Receiver IceCandidate)
      → (observer r s).0 ≡ ok rxs
      → (observer r (observer r s).1).0
        ≡ err (status_from (internal_error "video_track_rx already taken"))
  observer_once r s rxs h = elim (observer_cases r s) [
    | inl (missing, e) ↦ absurd (ground (arith, e, h))
    | inr (inl (x, found, absent, e)) ↦ absurd (ground (arith, e, h))
    | inr (inr (x, pc, found, present, e)) ↦ rw e (take_from_again r s x pc rxs (rw e at h))
  ]
