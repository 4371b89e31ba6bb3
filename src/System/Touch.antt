-- ===== src/System/Touch.antt =====
-- src/handlers.rs, src/session.rs, src/data.rs: what one request, or one step of the metrics task, may
-- do to one session.
pub mod Step
use text.Mathlib.TextEquality.{eq_iff}
use text.Mathlib.Text.{◌==◌ as str_eq}
use load_test_server.Prelude.{
  ℕ, ◌≡◌, refl, ap, subst, inl, inr, Bool, String, Option, none, some, arith, Bool-cases,
  Option-cases,
}
use load_test_server.Result.{Exec, Held}
use load_test_server.Result.Keeps.{Keeps}
use load_test_server.Error.{ServerError, Status}
use load_test_server.Log
use load_test_server.PeerConnection.{PeerConnectionManager}
use load_test_server.Session.{Session, export_at}
use load_test_server.Session.New.{IsNew}
use load_test_server.Session.Lifecycle.{starts, stops, call_op}
use load_test_server.Data.{Data, Server, lookup, write, call_session}
use load_test_server.Data.Laws.{lookup-write, call_session_cases}
use load_test_server.Handlers.Sessions
use load_test_server.Handlers.PeerConnections.{make_peer_connection}
use load_test_server.Handlers.Observer
use load_test_server.Handlers.Observer.{take_receivers, take_from}
use load_test_server.Handlers.Create.{create_session_cases}
use load_test_server.Handlers.Reading
use load_test_server.Handlers.Calls.{get_stats_state, create_peer_connection_state, observer_cases}
use load_test_server.System.{
  Request, create_session, start_session, stop_session, get_stats, create_peer_connection,
  create_offer, create_answer, set_local_description, set_remote_description, add_track,
  add_transceiver, observer, get_transceivers, outcome, handle,
}
use load_test_server.System.Invariant.{target, handle-Frame, outcome-state}
use load_test_server.System.Interleaved.{
  Point, request, Task, task, enter, export, leave, finish, Turn, Process, move, advance,
  advance_from, enter_from, export_from, finish_from, export_connection,
}
use load_test_server.Webrtc.{
  CreateSessionRequest, StartSessionRequest, StopSessionRequest, CreatePeerConnectionRequest,
  ObserverRequest,
}
use load_test_server.External.Platform.{Platform}

module _ ⦃P : Platform⦄ where
  open P use {World, by_name}
  open by_name use {get, insert, get-insert_self}

  abbrev pub held : Session → World → Held Session World
  held x w = record { item = x; world = w }

  -- the methods that change a session, with the point that calls them
  pub data Change (e : Point) (id : String) (x y : Session) : Type 0 where
    by_start :
        (r : StartSessionRequest) (w : World)
        → e ≡ request (start_session r)
        → r.session_id ≡ id
        → y ≡ (call_op starts (held x w)).1.item
        → Change e id x y
    by_stop :
        (r : StopSessionRequest) (w : World)
        → e ≡ request (stop_session r)
        → r.session_id ≡ id
        → y ≡ (call_op stops (held x w)).1.item
        → Change e id x y
    by_make :
        (r : CreatePeerConnectionRequest) (w : World)
        → e ≡ request (create_peer_connection r)
        → r.session_id ≡ id
        → y ≡ (make_peer_connection r.peer_connection_id r.name (held x w)).1.item
        → Change e id x y
    by_take :
        (r : ObserverRequest) (pc : PeerConnectionManager)
        → e ≡ request (observer r)
        → r.session_id ≡ id
        → get x.peer_connections r.peer_connection_id ≡ some pc
        → y ≡ record x {
          peer_connections = insert x.peer_connections r.peer_connection_id (take_receivers pc).1;
        }
        → Change e id x y
    by_export :
        (poll : Bool) (pc_id : String) (w : World)
        → e ≡ task (export pc_id)
        → y ≡ (export_at poll pc_id (held x w)).item
        → Change e id x y

  -- the session under an id before and after
  pub data Touch (e : Point) (id : String) (v v' : Option Session) : Type 0 where
    keeps : v' ≡ v → Touch e id v v'
    changes : (x y : Session) → v ≡ some x → v' ≡ some y → Change e id x y → Touch e id v v'
    makes :
        (r : CreateSessionRequest) (x : Session)
        → e ≡ request (create_session r)
        → r.session_id ≡ id
        → v' ≡ some x
        → IsNew r.session_id r.name r.polling_state_s (Log.from_i32 r.log_level) x
        → Touch e id v v'
