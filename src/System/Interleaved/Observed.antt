-- ===== src/System/Interleaved/Observed.antt =====
-- The receivers of one connection over an interleaved history.
use load_test_server.Prelude.{◌≡◌, refl, subst, inl, inr, none, List, ◌∷◌, All, arith}
use load_test_server.Result.{convert-eq-ok, ok, err}
use load_test_server.Error.{status_from, internal_error}
use load_test_server.PeerConnection.{PeerConnectionManager}
use load_test_server.Data.{Server}
use load_test_server.Handlers.Observer.{take_receivers, take_from}
use load_test_server.Handlers.Calls.{observer_cases}
use load_test_server.Handlers.Connections.{observer_found}
use load_test_server.Handlers.Observer
use load_test_server.System.{create_session, observer, handle}
use load_test_server.System.Invariant.{outcome-state}
use load_test_server.System.Interleaved.{Point, request, Process, move, interleave}
use load_test_server.System.Interleaved.Preserved.{At, interleave-At}
use load_test_server.Webrtc.{CreateSessionRequest, ObserverRequest}
use load_test_server.External.Platform.{Platform}
use load_test_server.System.Interleaved.Taken.{IsTaken, Change-IsTaken, Spares}

module _ ⦃P : Platform⦄ where
  open P use {World, by_name, Receiver, VideoTransceiver, IceCandidate}
  open by_name use {get, insert, get-insert_self}

  not_made :
      (r : ObserverRequest) (e : Point) (c : CreateSessionRequest)
      → Spares r e
      → e ≡ request (create_session c)
      → c.session_id ≡ r.session_id
      → ⊥
  not_made r e c spared asked names = subst (Spares r) asked spared names

  take_receivers_ok :
      (pc : PeerConnectionManager) (rxs : Receiver VideoTransceiver × Receiver IceCandidate)
      → (take_receivers pc).0 ≡ ok rxs
      → (take_receivers pc).1.video_track_rx ≡ none
  unfolding take_receivers
  take_receivers_ok pc rxs h = ground arith

  take_receivers_taken :
      (pc : PeerConnectionManager)
      → pc.video_track_rx ≡ none
      → (take_receivers pc).0 ≡ err (internal_error "video_track_rx already taken")
  unfolding take_receivers
  take_receivers_taken pc h = ground arith

  -- an observer that succeeds leaves the connection taken
  observer-IsTaken :
      (r : ObserverRequest) (s : Server) (rxs : Receiver VideoTransceiver × Receiver IceCandidate)
      → (Observer.observer r s).0 ≡ ok rxs
      → At r.session_id (IsTaken r.peer_connection_id) (Observer.observer r s).1
  unfolding take_from
  observer-IsTaken r s rxs h = elim (observer_cases r s) [
    | inl (missing, e) ↦ absurd (ground (arith, e, h))
    | inr (inl (x, found, absent, e)) ↦ absurd (ground (arith, e, h))
    | inr (inr (x, pc, found, present, e)) ↦ rw e (record {
      session = _;
      found = get-insert_self s.item.sessions r.session_id _;
      holds = record {
        connection = (take_receivers pc).1;
        present = get-insert_self x.peer_connections r.peer_connection_id _;
        taken =
            take_receivers_ok pc rxs (convert-eq-ok status_from (take_receivers pc).0 (rw e at h));
      };
    })
  ]

  -- an observer of a taken connection fails
  IsTaken-observer :
      (r : ObserverRequest) (s : Server)
      → At r.session_id (IsTaken r.peer_connection_id) s
      → (Observer.observer r s).0
        ≡ err (status_from (internal_error "video_track_rx already taken"))
  unfolding take_from
  IsTaken-observer r s h =
      rw
        (
          observer_found r s h.session h.holds.connection h.found h.holds.present,
          take_receivers_taken h.holds.connection h.holds.taken,
        )
        refl

  -- Once an observer of a connection has succeeded, every later observer of the same connection
  -- fails with the internal error that the receiver is already taken, whatever happens in between,
  -- until the session or the connection of that id is made anew.
  pub observer_once-interleave :
      (r : ObserverRequest) (p : Process) (rxs : Receiver VideoTransceiver × Receiver IceCandidate)
      (es : List Point)
      → (Observer.observer r p.server).0 ≡ ok rxs
      → All (Spares r) es
      → (Observer.observer r (interleave (request (observer r) ∷ es) p).server).0
        ≡ err (status_from (internal_error "video_track_rx already taken"))
  unfolding interleave move handle
  observer_once-interleave r p rxs es h spared = IsTaken-observer r _ (
      interleave-At (Change-IsTaken r) (not_made r) es _ spared
        (rw (outcome-state) (observer-IsTaken r p.server rxs h)))
