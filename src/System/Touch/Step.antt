-- ===== src/System/Touch/Step.antt =====
-- src/handlers.rs, src/data.rs: one request, or one step of the metrics task, as it touches a session.
use text.Mathlib.TextEquality.{eq_iff}
use text.Mathlib.Text.{◌==◌ as str_eq}
use load_test_server.Prelude.{
  ℕ, ◌≡◌, refl, ap, subst, inl, inr, Bool, String, Option, none, some, arith, Bool-cases,
  Option-cases,
}
use load_test_server.Result.{Exec, Held}
use load_test_server.Result.Keeps.{Keeps}
use load_test_server.Error.{ServerError, Status}
use load_test_server.Session.{Session, export_at}
use load_test_server.Session.Lifecycle.{starts, stops, call_op}
use load_test_server.Data.{Data, Server, lookup, write, call_session}
use load_test_server.Data.Laws.{lookup-write, call_session_cases}
use load_test_server.Handlers.Sessions
use load_test_server.Handlers.PeerConnections.{make_peer_connection}
use load_test_server.Handlers.Observer
use load_test_server.Handlers.Observer.{take_receivers, take_from}
use load_test_server.Handlers.Create.{create_session_cases}
use load_test_server.Handlers.Reading
use load_test_server.Handlers.Calls.{get_stats_state, create_peer_connection_state, observer_cases}
use load_test_server.System.{
  Request, create_session, start_session, stop_session, get_stats, create_peer_connection,
  create_offer, create_answer, set_local_description, set_remote_description, add_track,
  add_transceiver, observer, get_transceivers, outcome, handle,
}
use load_test_server.System.Invariant.{target, handle-Frame, outcome-state}
use load_test_server.System.Interleaved.{
  Point, request, Task, task, enter, export, leave, finish, Turn, Process, move, advance,
  advance_from, enter_from, export_from, finish_from, export_connection,
}
use load_test_server.System.Touch.{
  by_start, by_stop, by_make, by_take, by_export, held, Touch, keeps, changes, makes,
}
use load_test_server.Webrtc.{CreateSessionRequest, ObserverRequest}
use load_test_server.External.Platform.{Platform}

module _ ⦃P : Platform⦄ where
  open P use {World, by_name}
  open by_name use {get, insert, get-insert_self}

  create_session-Touch :
      (r : CreateSessionRequest) (s : Server)
      → Touch
          (request (create_session r))
          r.session_id
          (lookup r.session_id s)
          (lookup r.session_id (Sessions.create_session r s).1)
  create_session-Touch r s = elim (create_session_cases r s) [
    | inl (x, _, n, e) ↦
        rw e (makes r x refl refl (get-insert_self s.item.sessions r.session_id x) n)
    | inr (inl (x, _, e)) ↦ rw e (keeps refl)
    | inr (inr (_, e)) ↦ rw e (keeps refl)
  ]

  -- a method call, given what the method does
  call_session-Touch :
      {A : Type 0} (e : Point) (id : String) (method : Exec (Held Session World) ServerError A)
      (s : Server)
      → ((x : Session) → Touch e id (some x) (some (method (held x s.world)).1.item))
      → Touch e id (lookup id s) (lookup id (call_session id method s).1)
  call_session-Touch e id method s h = elim (call_session_cases id method s) [
    | inl (missing, c) ↦ rw c (keeps refl)
    | inr (x, found, c) ↦ rw (c, found, get-insert_self s.item.sessions id) (h x)
  ]

  observer-Touch :
      (r : ObserverRequest) (s : Server)
      → Touch
          (request (observer r))
          r.session_id
          (lookup r.session_id s)
          (lookup r.session_id (Observer.observer r s).1)
  unfolding take_from
  observer-Touch r s = elim (observer_cases r s) [
    | inl (missing, e) ↦ rw e (keeps refl)
    | inr (inl (x, found, absent, e)) ↦ rw e (keeps refl)
    | inr (inr (x, pc, found, present, e)) ↦ rw e (
        changes x _ found (get-insert_self s.item.sessions r.session_id _)
          (by_take r pc refl refl present refl))
  ]

  reads-Touch :
      {A : Type 0} (m : Exec Server Status A) (e : Point) (id : String) (s : Server)
      → Keeps m
      → Touch e id (lookup id s) (lookup id (outcome m s).1)
  reads-Touch m e id s k =
      rw (outcome-state m s) (keeps (ap (λ (d : Data). get d.sessions id) (k.same s)))

  own-Touch :
      (r : Request) (s : Server)
      → Touch (request r) (target r) (lookup (target r) s) (lookup (target r) (handle r s).1)
  unfolding handle Sessions.start_session Sessions.stop_session Sessions.read_stats
  own-Touch (create_session r) s = rw outcome-state (create_session-Touch r s)
  own-Touch (start_session r) s = rw outcome-state (
      call_session-Touch _ r.session_id (call_op starts) s
        (λ x. changes x _ refl refl (by_start r s.world refl refl refl)))
  own-Touch (stop_session r) s = rw outcome-state (
      call_session-Touch _ r.session_id (call_op stops) s
        (λ x. changes x _ refl refl (by_stop r s.world refl refl refl)))
  own-Touch (get_stats r) s =
      rw (outcome-state, get_stats_state r s)
        (call_session-Touch _ r.session_id Sessions.read_stats s (λ x. keeps refl))
  own-Touch (create_peer_connection r) s =
      rw (outcome-state, create_peer_connection_state r s)
        (call_session-Touch _ r.session_id (make_peer_connection r.peer_connection_id r.name) s
          (λ x. changes x _ refl refl (by_make r s.world refl refl refl)))
  own-Touch (create_offer r) s = reads-Touch _ _ r.session_id s (Reading.Keeps-create_offer r)
  own-Touch (create_answer r) s = reads-Touch _ _ r.session_id s (Reading.Keeps-create_answer r)
  own-Touch (set_local_description r) s =
      reads-Touch _ _ r.session_id s (Reading.Keeps-set_local_description r)
  own-Touch (set_remote_description r) s =
      reads-Touch _ _ r.session_id s (Reading.Keeps-set_remote_description r)
  own-Touch (add_track r) s = reads-Touch _ _ r.session_id s (Reading.Keeps-add_track r)
  own-Touch (add_transceiver r) s = reads-Touch _ _ r.session_id s (Reading.Keeps-add_transceiver r)
  own-Touch (observer r) s = rw outcome-state (observer-Touch r s)
  own-Touch (get_transceivers r) s =
      reads-Touch _ _ r.session_id s (Reading.Keeps-get_transceivers r)

  handle-Touch :
      (r : Request) (id : String) (s : Server)
      → Touch (request r) id (lookup id s) (lookup id (handle r s).1)
  handle-Touch r id s = elim (Bool-cases (str_eq (target r) id)) [
    | inl e ↦
        subst (λ j. Touch (request r) j (lookup j s) (lookup j (handle r s).1))
          ((eq_iff (target r) id).0 e) (own-Touch r s)
    | inr e ↦ keeps ((handle-Frame r s).others id (ground (arith, eq_iff (target r) id)))
  ]

  write_export-Touch :
      (j : String) (x : Session) (poll : Bool) (pc_id id : String) (w' : World) (s : Server)
      → lookup j s ≡ some x
      → Touch
          (task (export pc_id))
          id
          (lookup id s)
          (lookup id (write j (export_at poll pc_id (held x s.world)).item w' s))
  write_export-Touch j x poll pc_id id w' s found = elim (Bool-cases (str_eq j id)) [
    | inl e ↦
        rw (lookup-write j (export_at poll pc_id (held x s.world)).item w' s id, e)
          (changes x _ (rw (← (eq_iff j id).0 e) found) refl
            (by_export poll pc_id s.world refl refl))
    | inr e ↦
        rw (lookup-write j (export_at poll pc_id (held x s.world)).item w' s id, e) (keeps refl)
  ]

  export-Touch :
      (j : String) (poll : Bool) (pc_id id : String) (s : Server)
      → Touch (task (export pc_id)) id (lookup id s) (lookup id (export_connection j poll pc_id s))
  unfolding export_connection
  export-Touch j poll pc_id id s = elim (Option-cases (lookup j s)) [
    | inl missing ↦ rw (missing, export_connection) (keeps refl)
    | inr (x, found) ↦
        rw (found, export_connection)
          (write_export-Touch j x poll pc_id id (export_at poll pc_id (held x s.world)).world s
            found)
  ]

  export_from-Touch :
      (v : Option (String × Bool)) (pc_id id : String) (p : Process)
      → Touch
          (task (export pc_id))
          id
          (lookup id p.server)
          (lookup id (export_from v pc_id p).server)
  export_from-Touch none pc_id id p = keeps refl
  export_from-Touch (some (j, poll)) pc_id id p = export-Touch j poll pc_id id p.server

  enter_from-Touch :
      (v : Option (String × Bool)) (elapsed : ℕ) (j id : String) (e : Point) (p : Process)
      → Touch e id (lookup id p.server) (lookup id (enter_from v elapsed j p).server)
  enter_from-Touch none elapsed j id e p = keeps refl
  enter_from-Touch (some v) elapsed j id e p = keeps refl

  finish_from-Touch :
      (v : Option (String × Bool)) (elapsed : ℕ) (id : String) (e : Point) (p : Process)
      → Touch e id (lookup id p.server) (lookup id (finish_from v elapsed p).server)
  finish_from-Touch none elapsed id e p = keeps refl
  finish_from-Touch (some v) elapsed id e p = keeps refl

  pub advance-Touch :
      (k : Task) (c : Option Turn) (id : String) (p : Process)
      → Touch (task k) id (lookup id p.server) (lookup id (advance_from c k p).server)
  unfolding advance
  advance-Touch k none id p = keeps refl
  advance-Touch (enter j) (some turn) id p = enter_from-Touch turn.visiting turn.elapsed j id _ p
  advance-Touch (export pc_id) (some turn) id p = export_from-Touch turn.visiting pc_id id p
  advance-Touch leave (some turn) id p = keeps refl
  advance-Touch finish (some turn) id p = finish_from-Touch turn.visiting turn.elapsed id _ p

  -- Whatever happens at one point, a session is left alone, or changed by the one method that the
  -- point calls on it, or made anew by a create_session that names it.
  pub move-Touch :
      (e : Point) (id : String) (p : Process)
      → Touch e id (lookup id p.server) (lookup id (move e p).server)
  unfolding move
  move-Touch (request r) id p = handle-Touch r id p.server
  move-Touch (task k) id p = advance-Touch k p.collector id p
