-- ===== src/System/Invariant.antt =====
-- src/handlers.rs, src/data.rs: the sessions after requests and turns of the metrics task.
use load_test_server.Prelude.{ℕ, inl, inr, String, ◌≡◌, List, [], ◌∷◌, Option, none, some, arith}
use load_test_server.Result.{Exec, Result, ok, err, panic, bind-pure-state, continue}
use load_test_server.Result.Keeps.{Keeps}
use load_test_server.Error.{Status}
use load_test_server.Session.{Session}
use load_test_server.Session.Valid.{IsValid, export-IsValid}
use load_test_server.Data
use load_test_server.Data.{Server, lookup, write}
use load_test_server.Data.Laws.{Each, Each-same, Each-write, Frame, Frame-same}
use load_test_server.Collection.{next_elapsed, session_ids, collect, collect_each, collect_session}
use load_test_server.Collection.Turns.{collect_session_cases}
use load_test_server.Handlers.Reading
use load_test_server.Handlers.Valid
use load_test_server.Handlers.Frame as Frames
use load_test_server.System.{
  Request, create_session, start_session, stop_session, get_stats, create_peer_connection,
  create_offer, create_answer, set_local_description, set_remote_description, add_track,
  add_transceiver, observer, get_transceivers, Event, request, tick, outcome, handle, System, main,
  step, run, run_collector,
}
use load_test_server.External.Platform.{Platform}

-- the session that a request names
abbrev pub target : Request → String
target (create_session r) = r.session_id
target (start_session r) = r.session_id
target (stop_session r) = r.session_id
target (get_stats r) = r.session_id
target (create_peer_connection r) = r.session_id
target (create_offer r) = r.session_id
target (create_answer r) = r.session_id
target (set_local_description r) = r.session_id
target (set_remote_description r) = r.session_id
target (add_track r) = r.session_id
target (add_transceiver r) = r.session_id
target (observer r) = r.session_id
target (get_transceivers r) = r.session_id

module _ ⦃P : Platform⦄ where
  open P use {World, by_name}
  open by_name use {get-empty}

  pub outcome-state :
      {A : Type 0} (m : Exec Server Status A) (s : Server) → (outcome m s).1 ≡ (m s).1
  outcome-state m s = bind-pure-state m (λ _. tt) s

  reads-Each :
      {A : Type 0} (m : Exec Server Status A) (s : Server)
      → Keeps m
      → Each IsValid s
      → Each IsValid (outcome m s).1
  reads-Each m s k h = rw (outcome-state m s) (Each-same s (m s).1 (k.same s) h)

  reads-Frame :
      {A : Type 0} (m : Exec Server Status A) (id : String) (s : Server)
      → Keeps m
      → Frame id s (outcome m s).1
  reads-Frame m id s k = rw (outcome-state m s) (Frame-same id s (m s).1 (k.same s))

  -- Every request keeps every session of the server valid, whether it succeeds or fails.
  pub handle-Each-IsValid :
      (r : Request) (s : Server) → Each IsValid s → Each IsValid (handle r s).1
  unfolding handle
  handle-Each-IsValid (create_session r) s h = rw outcome-state (Valid.create_session-Each r s h)
  handle-Each-IsValid (start_session r) s h = rw outcome-state (Valid.start_session-Each r s h)
  handle-Each-IsValid (stop_session r) s h = rw outcome-state (Valid.stop_session-Each r s h)
  handle-Each-IsValid (get_stats r) s h = rw outcome-state (Valid.get_stats-Each r s h)
  handle-Each-IsValid (create_peer_connection r) s h =
      rw outcome-state (Valid.create_peer_connection-Each r s h)
  handle-Each-IsValid (create_offer r) s h = reads-Each _ s (Reading.Keeps-create_offer r) h
  handle-Each-IsValid (create_answer r) s h = reads-Each _ s (Reading.Keeps-create_answer r) h
  handle-Each-IsValid (set_local_description r) s h =
      reads-Each _ s (Reading.Keeps-set_local_description r) h
  handle-Each-IsValid (set_remote_description r) s h =
      reads-Each _ s (Reading.Keeps-set_remote_description r) h
  handle-Each-IsValid (add_track r) s h = reads-Each _ s (Reading.Keeps-add_track r) h
  handle-Each-IsValid (add_transceiver r) s h = reads-Each _ s (Reading.Keeps-add_transceiver r) h
  handle-Each-IsValid (observer r) s h = rw outcome-state (Valid.observer-Each r s h)
  handle-Each-IsValid (get_transceivers r) s h = reads-Each _ s (Reading.Keeps-get_transceivers r) h

  -- No request changes, adds or removes a session other than the one that it names.
  pub handle-Frame : (r : Request) (s : Server) → Frame (target r) s (handle r s).1
  unfolding handle
  handle-Frame (create_session r) s = rw outcome-state (Frames.create_session-Frame r s)
  handle-Frame (start_session r) s = rw outcome-state (Frames.start_session-Frame r s)
  handle-Frame (stop_session r) s = rw outcome-state (Frames.stop_session-Frame r s)
  handle-Frame (get_stats r) s = rw outcome-state (Frames.get_stats-Frame r s)
  handle-Frame (create_peer_connection r) s =
      rw outcome-state (Frames.create_peer_connection-Frame r s)
  handle-Frame (create_offer r) s = reads-Frame _ r.session_id s (Reading.Keeps-create_offer r)
  handle-Frame (create_answer r) s = reads-Frame _ r.session_id s (Reading.Keeps-create_answer r)
  handle-Frame (set_local_description r) s =
      reads-Frame _ r.session_id s (Reading.Keeps-set_local_description r)
  handle-Frame (set_remote_description r) s =
      reads-Frame _ r.session_id s (Reading.Keeps-set_remote_description r)
  handle-Frame (add_track r) s = reads-Frame _ r.session_id s (Reading.Keeps-add_track r)
  handle-Frame (add_transceiver r) s =
      reads-Frame _ r.session_id s (Reading.Keeps-add_transceiver r)
  handle-Frame (observer r) s = rw outcome-state (Frames.observer-Frame r s)
  handle-Frame (get_transceivers r) s =
      reads-Frame _ r.session_id s (Reading.Keeps-get_transceivers r)

  continue-Each :
      {A B E : Type 0} (r : Result E A) (f : A → Exec Server E B) (t : Server)
      → Each IsValid t
      → ((a : A) → Each IsValid (f a t).1)
      → Each IsValid (continue r f t).1
  continue-Each (ok a) f t h k = k a
  continue-Each (err e) f t h k = h
  continue-Each panic f t h k = h

  collect_session-Each :
      (elapsed : ℕ) (id : String) (s : Server)
      → Each IsValid s
      → Each IsValid (collect_session elapsed id s).1
  collect_session-Each elapsed id s h = elim (collect_session_cases elapsed id s) [
    | inl (missing, e) ↦ rw e h
    | inr (inl (x, found, zero_interval, e)) ↦ rw e h
    | inr (inr (x, found, nonzero, e)) ↦
        rw e (Each-write id _ _ s h (export-IsValid _ id _ (h.at id x found)))
  ]

  collect_each-Each :
      (elapsed : ℕ) (ids : List String) (s : Server)
      → Each IsValid s
      → Each IsValid (collect_each elapsed ids s).1
  unfolding collect_each
  collect_each-Each elapsed [] s h = h
  collect_each-Each elapsed (id ∷ ids) s h =
      continue-Each (collect_session elapsed id s).0 (λ _. collect_each elapsed ids) _
        (collect_session-Each elapsed id s h)
        (λ _. collect_each-Each elapsed ids _ (collect_session-Each elapsed id s h))

  collect-Each : (elapsed : ℕ) (s : Server) → Each IsValid s → Each IsValid (collect elapsed s).1
  unfolding collect
  collect-Each elapsed s h =
      continue-Each (collect_each elapsed (session_ids s) s).0
        (λ _ t. (ok (next_elapsed elapsed t), t)) _ (collect_each-Each elapsed (session_ids s) s h)
        (λ _. collect_each-Each elapsed (session_ids s) s h)

  run_collector-Each :
      (c : Option ℕ) (s : System) → Each IsValid s.server → Each IsValid (run_collector c s).server
  run_collector-Each none s h = h
  run_collector-Each (some elapsed) s h = collect-Each elapsed s.server h

  step-Each : (e : Event) (s : System) → Each IsValid s.server → Each IsValid (step e s).server
  unfolding step
  step-Each (request r) s h = handle-Each-IsValid r s.server h
  step-Each tick s h = run_collector-Each s.collector s h

  run-Each : (es : List Event) (s : System) → Each IsValid s.server → Each IsValid (run es s).server
  unfolding run
  run-Each [] s h = h
  run-Each (e ∷ es) s h = run-Each es (step e s) (step-Each e s h)

  main-Each : (w : World) → Each IsValid (main w).server
  unfolding main Data.new
  main-Each w = record {
    at = λ j x found. absurd (ground (arith, found, get-empty {V = Session} j));
  }

  -- From the start of the server, after any sequence of requests and turns of the metrics task,
  -- every session in the map is valid.
  pub run-main-Each-IsValid : (w : World) (es : List Event) → Each IsValid (run es (main w)).server
  run-main-Each-IsValid w es = run-Each es (main w) (main-Each w)
