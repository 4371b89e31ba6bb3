-- ===== src/System/Interleaved.antt =====
-- src/data.rs, src/handlers.rs: the metrics task one await at a time, with requests in between. The
-- task enters a session, exports its connections one by one, and leaves it; which sessions and
-- connections an iteration meets while requests change the maps is left open.
pub mod Preserved
pub mod Reach
pub mod Coarse
pub mod Taken
pub mod History
pub mod Polled
pub mod Observed
pub mod Valid
pub mod Answers
pub mod Lasting
pub mod Isolated
pub mod Created
use load_test_server.Prelude.{
  ℕ, ◌%◌, String, Bool, Option, none, some, List, [], ◌∷◌, ◌==◌, if◌then◌else◌,
}
use load_test_server.Log
use load_test_server.Session.{Session, export_at}
use load_test_server.Data
use load_test_server.Data.{Server, lookup, write}
use load_test_server.Collection.{next_elapsed}
use load_test_server.System.{Request, handle}
use load_test_server.External.Platform.{Platform}

-- the steps of the task: into a session, over one of its connections, out, and to the next turn
pub data Task : Type 0 where
  enter : String → Task
  export : String → Task
  leave : Task
  finish : Task

pub data Point : Type 0 where
  request : Request → Point
  task : Task → Point

-- the task in its loop: `elapsed`, and the session it is in with `should_poll_state`
pub record Turn : Type 0 where
  pub elapsed : ℕ
  pub visiting : Option (String × Bool)

module _ ⦃P : Platform⦄ where
  open P use {World}

  -- the task is none once it has ended
  pub record Process : Type 0 where
    pub server : Server
    pub collector : Option Turn

  unfoldable pub launch : World → Process
  unfolding Data.new
  launch w = record {
    server = record { item = Data.new; world = Log.set_log_level Log.default w };
    collector = some (record { elapsed = 1; visiting = none });
  }

  -- the remainder by zero panics
  unfoldable pub enter_session : ℕ → String → Server → Option Turn
  enter_session elapsed id s = elim (lookup id s) [
    | none ↦ some (record { elapsed = elapsed; visiting = none })
    | some x ↦
        if x.polling_state_s == 0
        then none
        else some
            (record { elapsed = elapsed; visiting = some (id, elapsed % x.polling_state_s == 0) })
  ]

  unfoldable pub export_connection : String → Bool → String → Server → Server
  export_connection id poll pc_id s = elim (lookup id s) [
    | none ↦ s
    | some x ↦
        let t = export_at poll pc_id (record { item = x; world = s.world }) in
        write id t.item t.world s
  ]

  abbrev pub enter_from : Option (String × Bool) → ℕ → String → Process → Process
  enter_from none elapsed id p = record p { collector = enter_session elapsed id p.server }
  enter_from (some v) elapsed id p = p

  abbrev pub export_from : Option (String × Bool) → String → Process → Process
  export_from none pc_id p = p
  export_from (some (id, poll)) pc_id p = record p {
    server = export_connection id poll pc_id p.server;
  }

  abbrev pub finish_from : Option (String × Bool) → ℕ → Process → Process
  finish_from none elapsed p = record p {
    collector = some (record { elapsed = next_elapsed elapsed p.server; visiting = none });
  }
  finish_from (some v) elapsed p = p

  -- one step of the running task; a step that does not fit where it stands changes nothing
  unfoldable pub advance : Task → Turn → Process → Process
  unfolding enter_session export_connection
  advance (enter id) turn p = enter_from turn.visiting turn.elapsed id p
  advance (export pc_id) turn p = export_from turn.visiting pc_id p
  advance leave turn p = record p {
    collector = some (record { elapsed = turn.elapsed; visiting = none });
  }
  advance finish turn p = finish_from turn.visiting turn.elapsed p

  abbrev pub advance_from : Option Turn → Task → Process → Process
  advance_from none k p = p
  advance_from (some turn) k p = advance k turn p

  unfoldable pub move : Point → Process → Process
  unfolding advance
  move (request r) p = record p { server = (handle r p.server).1 }
  move (task k) p = advance_from p.collector k p

  unfoldable pub interleave : List Point → Process → Process
  interleave [] p = p
  interleave (e ∷ es) p = interleave es (move e p)
