-- ===== src/System/History.antt =====
-- src/handlers.rs, src/data.rs: the life cycle of one session as the specification of the server.
use text.Mathlib.TextEquality.{eq_iff}
use text.Mathlib.Text.{◌==◌ as str_eq}
use load_test_server.Prelude.{
  ◌≡◌, refl, sym, ap, ◌∙◌, subst, inl, inr, Bool, true, false, String, Option, none, some, List, [],
  ◌∷◌, arith, Bool-cases, if◌then◌else◌,
}
use load_test_server.Result.{Result, Exec, Held, ok, err, panic}
use load_test_server.Result.Keeps.{Keeps}
use load_test_server.Error.{ServerError, Status}
use load_test_server.WebrtcPool.Create.{create_peer_connection_manager}
use load_test_server.PeerConnection.{PeerConnectionManager}
use load_test_server.Session.{Session, SessionState, created, add_peer_connection}
use load_test_server.Session.Lifecycle.{starts, stops}
use load_test_server.Data
use load_test_server.Data.{Data, Server, lookup, drop_old}
use load_test_server.Handlers.Sessions
use load_test_server.Handlers.PeerConnections.{make_peer_connection, store_made}
use load_test_server.Handlers.Observer
use load_test_server.Handlers.Observer.{take_from}
use load_test_server.Handlers.Create.{made, create_session_cases}
use load_test_server.Handlers.Reading
use load_test_server.Handlers.Calls.{get_stats_state, create_peer_connection_state, observer_cases}
use load_test_server.System.{
  Request, create_session, start_session, stop_session, get_stats, create_peer_connection,
  create_offer, create_answer, set_local_description, set_remote_description, add_track,
  add_transceiver, observer, get_transceivers, Event, request, tick, outcome, handle, System, main,
  step, run,
}
use load_test_server.System.Invariant.{target, handle-Frame, outcome-state}
use load_test_server.System.Turns.{view-run_collector}
use load_test_server.System.Lifecycle.{
  state_of, after, view, view-write_self, view-call_session, view-call_op,
}
use load_test_server.Webrtc.{CreateSessionRequest, ObserverRequest}
use load_test_server.External.Platform.{Platform}

-- what a request makes of the session that it names; `made` says whether a session could be made
abbrev advance : Bool → Request → Option SessionState → Option SessionState
advance made (create_session r) v = if made then some created else v
advance made (start_session r) v = after starts v
advance made (stop_session r) v = after stops v
advance made _ v = v

-- the life cycle of the session under an id, as one event moves it
abbrev pub follow : String → Bool × Event → Option SessionState → Option SessionState
follow id (made, request r) v = if str_eq (target r) id then advance made r v else v
follow id (made, tick) v = v

abbrev pub replay : String → List (Bool × Event) → Option SessionState → Option SessionState
replay id [] v = v
replay id (e ∷ es) v = replay id es (follow id e v)

abbrev pub is_ok : {E A : Type 0} → Result E A → Bool
is_ok (ok a) = true
is_ok (err e) = false
is_ok panic = false

module _ ⦃P : Platform⦄ where
  open P use {World, by_name}
  open by_name use {get, get-empty}

  -- whether libwebrtc gives what a new session needs; only create_session asks for it
  abbrev pub can_make : Event → Server → Bool
  can_make (request (create_session r)) s = is_ok (made r s).0
  can_make _ s = true

  view-reads :
      {A : Type 0} (m : Exec Server Status A) (id : String) (s : Server)
      → Keeps m
      → view id (outcome m s).1 ≡ view id s
  view-reads m id s k =
      rw (outcome-state m s) (ap (λ (d : Data). state_of (get d.sessions id)) (k.same s))

  view-create_session :
      (r : CreateSessionRequest) (s : Server)
      → view r.session_id (Sessions.create_session r s).1
        ≡ (if is_ok (made r s).0 then some created else view r.session_id s)
  view-create_session r s = elim (create_session_cases r s) [
    | inl (x, can, n, e) ↦
        rw (e, can)
          (view-write_self r.session_id x (drop_old (lookup r.session_id s) (made r s).1) s
            ∙ ap some n.is_created)
    | inr (inl (x, can, e)) ↦ rw (e, can) refl
    | inr (inr (can, e)) ↦ rw (e, can) refl
  ]

  make_state :
      (id name : String) (s : Held Session World)
      → (make_peer_connection id name s).1.item.state ≡ s.item.state
  unfolding make_peer_connection store_made add_peer_connection
  make_state id name s =
      go
        (create_peer_connection_manager id name
          (record { item = s.item.webrtc_pool; world = s.world })).0
        _
    where
      go :
          (r : Result ServerError PeerConnectionManager) (t : Held Session World)
          → (store_made r t).1.item.state ≡ t.item.state
      go (ok pc) t = refl
      go (err e) t = refl
      go panic t = refl

  view-observer :
      (r : ObserverRequest) (s : Server)
      → view r.session_id (Observer.observer r s).1 ≡ view r.session_id s
  unfolding take_from
  view-observer r s = elim (observer_cases r s) [
    | inl (missing, e) ↦ rw e refl
    | inr (inl (x, found, absent, e)) ↦ rw e refl
    | inr (inr (x, pc, found, present, e)) ↦
        rw e (view-write_self r.session_id _ s.world s ∙ sym (ap state_of found))
  ]

  -- the session that a request names
  view-own :
      (r : Request) (s : Server)
      → view (target r) (handle r s).1 ≡ advance (can_make (request r) s) r (view (target r) s)
  unfolding handle Sessions.start_session Sessions.stop_session Sessions.read_stats
  view-own (create_session r) s = rw outcome-state (view-create_session r s)
  view-own (start_session r) s = rw outcome-state (view-call_op starts r.session_id s)
  view-own (stop_session r) s = rw outcome-state (view-call_op stops r.session_id s)
  view-own (get_stats r) s =
      rw (outcome-state, get_stats_state r s)
        (view-call_session r.session_id r.session_id Sessions.read_stats s (λ x. refl))
  view-own (create_peer_connection r) s =
      rw (outcome-state, create_peer_connection_state r s)
        (view-call_session r.session_id r.session_id
          (make_peer_connection r.peer_connection_id r.name) s
          (λ x. make_state r.peer_connection_id r.name (record { item = x; world = s.world })))
  view-own (create_offer r) s = view-reads _ r.session_id s (Reading.Keeps-create_offer r)
  view-own (create_answer r) s = view-reads _ r.session_id s (Reading.Keeps-create_answer r)
  view-own (set_local_description r) s =
      view-reads _ r.session_id s (Reading.Keeps-set_local_description r)
  view-own (set_remote_description r) s =
      view-reads _ r.session_id s (Reading.Keeps-set_remote_description r)
  view-own (add_track r) s = view-reads _ r.session_id s (Reading.Keeps-add_track r)
  view-own (add_transceiver r) s = view-reads _ r.session_id s (Reading.Keeps-add_transceiver r)
  view-own (observer r) s = rw outcome-state (view-observer r s)
  view-own (get_transceivers r) s = view-reads _ r.session_id s (Reading.Keeps-get_transceivers r)

  pub view-handle :
      (id : String) (r : Request) (s : Server)
      → view id (handle r s).1 ≡ follow id (can_make (request r) s, request r) (view id s)
  view-handle id r s = elim (Bool-cases (str_eq (target r) id)) [
    | inl e ↦ rw e (
        subst (λ j. view j (handle r s).1 ≡ advance (can_make (request r) s) r (view j s))
          ((eq_iff (target r) id).0 e) (view-own r s))
    | inr e ↦
        rw e (ap state_of ((handle-Frame r s).others id (ground (arith, eq_iff (target r) id))))
  ]

  -- Every event moves every session exactly along its life cycle. A create_session for its id puts the
  -- session into the created state, whatever was there, if libwebrtc gives what a session needs, and
  -- else leaves it; a start_session for its id starts it from the created state, and a stop_session
  -- stops it from the started state, and both leave it in any other; and every other request, every
  -- request for another id and every turn of the metrics task leaves it where it is.
  pub view-step :
      (e : Event) (id : String) (s : System)
      → view id (step e s).server ≡ follow id (can_make e s.server, e) (view id s.server)
  unfolding step
  view-step (request r) id s = view-handle id r s.server
  view-step tick id s = view-run_collector id s.collector s

  -- the events of a run, each with whether a session could be made then
  abbrev pub trace : List Event → System → List (Bool × Event)
  trace [] s = []
  trace (e ∷ es) s = (can_make e s.server, e) ∷ trace es (step e s)

  view-run :
      (es : List Event) (id : String) (s : System)
      → view id (run es s).server ≡ replay id (trace es s) (view id s.server)
  unfolding run
  view-run [] id s = refl
  view-run (e ∷ es) id s =
      view-run es id (step e s) ∙ ap (replay id (trace es (step e s))) (view-step e id s)

  view-main : (id : String) (w : World) → view id (main w).server ≡ none
  unfolding main Data.new
  view-main id w = ap state_of (get-empty id)

  -- From the start of the server on, what a client can tell of a session, whether it is there and in
  -- which state, is what the life cycle makes of the sequence of events, beginning without a session,
  -- given for each create_session whether libwebrtc could provide what the session needs.
  pub view-run-main :
      (es : List Event) (id : String) (w : World)
      → view id (run es (main w)).server ≡ replay id (trace es (main w)) none
  view-run-main es id w =
      view-run es id (main w) ∙ ap (replay id (trace es (main w))) (view-main id w)
