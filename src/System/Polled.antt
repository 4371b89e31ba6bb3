-- ===== src/System/Polled.antt =====
-- src/data.rs, src/handlers.rs: the polling intervals over a history, and the metrics task under it.
use load_test_server.Prelude.{
  ℕ, ◌≡◌, refl, ap, ◌∙◌, inl, inr, true, false, is_some, String, List, [], ◌∷◌, All, arith, ◌==◌,
  Option-cases,
}
use load_test_server.Result.{Result, Exec, Held, ok, err, panic}
use load_test_server.Result.Keeps.{Keeps}
use load_test_server.Error.{ServerError, Status}
use load_test_server.WebrtcPool.Create.{create_peer_connection_manager}
use load_test_server.PeerConnection.{PeerConnectionManager}
use load_test_server.Session
use load_test_server.Session.{Session, add_peer_connection}
use load_test_server.Data
use load_test_server.Data.{Server, lookup, write}
use load_test_server.Data.Laws.{Each, Each-same, Each-write, call_session-Each}
use load_test_server.Handlers.Sessions
use load_test_server.Handlers.PeerConnections.{make_peer_connection, store_made}
use load_test_server.Handlers.Observer
use load_test_server.Handlers.Observer.{take_from}
use load_test_server.Handlers.Create.{create_session_cases}
use load_test_server.Handlers.Calls.{get_stats_state, create_peer_connection_state, observer_cases}
use load_test_server.Handlers.Reading
use load_test_server.System.{
  Request, create_session, start_session, stop_session, get_stats, create_peer_connection,
  create_offer, create_answer, set_local_description, set_remote_description, add_track,
  add_transceiver, observer, get_transceivers, Event, request, tick, outcome, handle, System, main,
  step, run,
}
use load_test_server.System.Invariant.{outcome-state}
use load_test_server.System.Collector.{IsPolled, tick-IsPolled}
use load_test_server.Webrtc.{CreateSessionRequest, ObserverRequest}
use load_test_server.External.Platform.{Platform}

-- a request that makes a session gives it an interval of a second at least
abbrev pub AsksInterval : Event → Type 0
AsksInterval (request (create_session r)) = (r.polling_state_s == 0) ≡ false
AsksInterval _ = Unit {0}

module _ ⦃P : Platform⦄ where
  open P use {World, by_name}
  open by_name use {get-empty}

  create_session-IsPolled :
      (r : CreateSessionRequest) (s : Server)
      → (r.polling_state_s == 0) ≡ false
      → Each IsPolled s
      → Each IsPolled (Sessions.create_session r s).1
  create_session-IsPolled r s asked h = elim (create_session_cases r s) [
    | inl (x, can, n, e) ↦
        rw e (Each-write r.session_id x _ s h (ap (λ (i : ℕ). i == 0) n.same_polling ∙ asked))
    | inr (inl (x, can, e)) ↦ rw e (Each-same s _ refl h)
    | inr (inr (can, e)) ↦ rw e (Each-same s _ refl h)
  ]

  pub start_interval :
      (s : Held Session World) → (Session.start s).1.item.polling_state_s ≡ s.item.polling_state_s
  unfolding Session.start
  start_interval s = ground arith

  pub stop_interval :
      (s : Held Session World) → (Session.stop s).1.item.polling_state_s ≡ s.item.polling_state_s
  unfolding Session.stop
  stop_interval s = ground arith

  pub make_interval :
      (id name : String) (s : Held Session World)
      → (make_peer_connection id name s).1.item.polling_state_s ≡ s.item.polling_state_s
  unfolding make_peer_connection store_made add_peer_connection
  make_interval id name s =
      go
        (create_peer_connection_manager id name
          (record { item = s.item.webrtc_pool; world = s.world })).0
        _
    where
      go :
          (r : Result ServerError PeerConnectionManager) (t : Held Session World)
          → (store_made r t).1.item.polling_state_s ≡ t.item.polling_state_s
      go (ok pc) t = refl
      go (err e) t = refl
      go panic t = refl

  observer-IsPolled :
      (r : ObserverRequest) (s : Server) → Each IsPolled s → Each IsPolled (Observer.observer r s).1
  unfolding take_from
  observer-IsPolled r s h = elim (observer_cases r s) [
    | inl (missing, e) ↦ rw e h
    | inr (inl (x, found, absent, e)) ↦ rw e h
    | inr (inr (x, pc, found, present, e)) ↦
        rw e (Each-write r.session_id _ _ s h (h.at r.session_id x found))
  ]

  reads-IsPolled :
      {A : Type 0} (m : Exec Server Status A) (s : Server)
      → Keeps m
      → Each IsPolled s
      → Each IsPolled (outcome m s).1
  reads-IsPolled m s k h = rw (outcome-state m s) (Each-same s (m s).1 (k.same s) h)

  handle-IsPolled :
      (r : Request) (s : Server)
      → AsksInterval (request r)
      → Each IsPolled s
      → Each IsPolled (handle r s).1
  unfolding handle Sessions.start_session Sessions.stop_session Sessions.read_stats
  handle-IsPolled (create_session r) s asked h =
      rw outcome-state (create_session-IsPolled r s asked h)
  handle-IsPolled (start_session r) s asked h = rw outcome-state (
      call_session-Each {Q = IsPolled} r.session_id Session.start s
        (λ x q. ap (λ (i : ℕ). i == 0) (start_interval (record { item = x; world = s.world })) ∙ q)
        h)
  handle-IsPolled (stop_session r) s asked h = rw outcome-state (
      call_session-Each {Q = IsPolled} r.session_id Session.stop s
        (λ x q. ap (λ (i : ℕ). i == 0) (stop_interval (record { item = x; world = s.world })) ∙ q)
        h)
  handle-IsPolled (get_stats r) s asked h =
      rw (outcome-state, get_stats_state r s)
        (call_session-Each {Q = IsPolled} r.session_id Sessions.read_stats s (λ x q. q) h)
  handle-IsPolled (create_peer_connection r) s asked h =
      rw (outcome-state, create_peer_connection_state r s)
        (call_session-Each {Q = IsPolled} r.session_id
          (make_peer_connection r.peer_connection_id r.name) s
          (λ x q.
            ap (λ (i : ℕ). i == 0)
              (make_interval r.peer_connection_id r.name (record { item = x; world = s.world }))
            ∙ q)
          h)
  handle-IsPolled (create_offer r) s asked h = reads-IsPolled _ s (Reading.Keeps-create_offer r) h
  handle-IsPolled (create_answer r) s asked h = reads-IsPolled _ s (Reading.Keeps-create_answer r) h
  handle-IsPolled (set_local_description r) s asked h =
      reads-IsPolled _ s (Reading.Keeps-set_local_description r) h
  handle-IsPolled (set_remote_description r) s asked h =
      reads-IsPolled _ s (Reading.Keeps-set_remote_description r) h
  handle-IsPolled (add_track r) s asked h = reads-IsPolled _ s (Reading.Keeps-add_track r) h
  handle-IsPolled (add_transceiver r) s asked h =
      reads-IsPolled _ s (Reading.Keeps-add_transceiver r) h
  handle-IsPolled (observer r) s asked h = rw outcome-state (observer-IsPolled r s h)
  handle-IsPolled (get_transceivers r) s asked h =
      reads-IsPolled _ s (Reading.Keeps-get_transceivers r) h

  -- the task is running, and all intervals are a second at least
  record IsRunning (s : System) : Type 0 where
    running : is_some s.collector ≡ true
    polled : Each IsPolled s.server

  step-IsRunning : (e : Event) (s : System) → AsksInterval e → IsRunning s → IsRunning (step e s)
  unfolding step
  step-IsRunning (request r) s asked h = record {
    running = h.running;
    polled = handle-IsPolled r s.server asked h.polled;
  }
  step-IsRunning tick s asked h = elim (Option-cases s.collector) [
    | inl ended ↦ absurd (ground (arith, ended, h.running))
    | inr (elapsed, e) ↦
        let (running, polled) = tick-IsPolled s elapsed e h.polled in
        record { running = running; polled = polled }
  ]

  run-IsRunning :
      (es : List Event) (s : System) → All AsksInterval es → IsRunning s → IsRunning (run es s)
  unfolding run
  run-IsRunning [] s asked h = h
  run-IsRunning (e ∷ es) s asked h =
      run-IsRunning es (step e s) asked.1 (step-IsRunning e s asked.0 h)

  main-IsRunning : (w : World) → IsRunning (main w)
  unfolding main Data.new
  main-IsRunning w = record {
    running = refl;
    polled = record { at = λ j x found. absurd (ground (arith, found, get-empty {V = Session} j)) };
  }

  -- From the start of the server on, as long as every create_session asks for an interval of at least
  -- one second, the metrics task is running after any sequence of requests and turns.
  pub run-main-is_some :
      (es : List Event) (w : World)
      → All AsksInterval es
      → is_some (run es (main w)).collector ≡ true
  run-main-is_some es w asked = (run-IsRunning es (main w) asked (main-IsRunning w)).running
