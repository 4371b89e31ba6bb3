-- ===== src/System/Interleaved/Polled.antt =====
-- The polling intervals over an interleaved history, and the metrics task under it.
use load_test_server.Prelude.{
  ℕ, ◌≡◌, refl, ap, ◌∙◌, subst, inl, inr, Bool, true, is_some, String, Option, none, some, List, [],
  ◌∷◌, All, ◌==◌, Option-cases,
}
use load_test_server.Session.{Session}
use load_test_server.Data.{Server, lookup}
use load_test_server.Data.Laws.{Each}
use load_test_server.System.Collector.{IsPolled, export_at_interval}
use load_test_server.System.Polled.{AsksInterval, start_interval, stop_interval, make_interval}
use load_test_server.System.Interleaved.{
  Point, request, Task, task, enter, export, leave, finish, Turn, Process, launch, move, interleave,
  advance, advance_from, enter_from, export_from, finish_from, enter_session,
}
use load_test_server.System.Interleaved.History.{event_of}
use load_test_server.System.Interleaved.Preserved.{Preserved, move-Each, launch-Each}
use load_test_server.System.Touch.{Change, by_start, by_stop, by_make, by_take, by_export, held}
use load_test_server.External.Platform.{Platform}

-- a point that makes a session gives it an interval of a second at least
abbrev pub PointAsks : Point → Type 0
PointAsks e = AsksInterval (event_of e)

module _ ⦃P : Platform⦄ where
  open P use {World}

  Change-interval :
      (e : Point) (id : String) (x y : Session)
      → Change e id x y
      → y.polling_state_s ≡ x.polling_state_s
  Change-interval e id x y (by_start r w asked names made) =
      ap (λ (z : Session). z.polling_state_s) made ∙ start_interval (held x w)
  Change-interval e id x y (by_stop r w asked names made) =
      ap (λ (z : Session). z.polling_state_s) made ∙ stop_interval (held x w)
  Change-interval e id x y (by_make r w asked names made) =
      ap (λ (z : Session). z.polling_state_s) made
      ∙ make_interval r.peer_connection_id r.name (held x w)
  Change-interval e id x y (by_take r pc asked names present made) =
      ap (λ (z : Session). z.polling_state_s) made
  Change-interval e id x y (by_export poll pc_id w asked made) =
      ap (λ (z : Session). z.polling_state_s) made ∙ export_at_interval poll pc_id (held x w)

  IsPolled-Preserved : Preserved PointAsks IsPolled
  IsPolled-Preserved = record {
    changed = λ e id x y good c h. ap (λ (i : ℕ). i == 0) (Change-interval e id x y c) ∙ h;
    new = λ e r x good asked n. ap (λ (i : ℕ). i == 0) n.same_polling ∙ subst PointAsks asked good;
  }

  -- the task is running, and all intervals are a second at least
  record IsAlive (p : Process) : Type 0 where
    running : is_some p.collector ≡ true
    polled : Each IsPolled p.server

  enter-is_some :
      (elapsed : ℕ) (id : String) (s : Server)
      → Each IsPolled s
      → is_some (enter_session elapsed id s) ≡ true
  unfolding enter_session
  enter-is_some elapsed id s h = elim (Option-cases (lookup id s)) [
    | inl missing ↦ rw (missing, enter_session) refl
    | inr (x, found) ↦ rw (found, enter_session) (rw (h.at id x found) refl)
  ]

  enter_from-is_some :
      (v : Option (String × Bool)) (elapsed : ℕ) (id : String) (p : Process)
      → IsAlive p
      → is_some (enter_from v elapsed id p).collector ≡ true
  enter_from-is_some none elapsed id p h = enter-is_some elapsed id p.server h.polled
  enter_from-is_some (some v) elapsed id p h = h.running

  export_from-is_some :
      (v : Option (String × Bool)) (pc_id : String) (p : Process)
      → IsAlive p
      → is_some (export_from v pc_id p).collector ≡ true
  export_from-is_some none pc_id p h = h.running
  export_from-is_some (some v) pc_id p h = h.running

  finish_from-is_some :
      (v : Option (String × Bool)) (elapsed : ℕ) (p : Process)
      → IsAlive p
      → is_some (finish_from v elapsed p).collector ≡ true
  finish_from-is_some none elapsed p h = refl
  finish_from-is_some (some v) elapsed p h = h.running

  advance-is_some :
      (k : Task) (c : Option Turn) (p : Process)
      → p.collector ≡ c
      → IsAlive p
      → is_some (advance_from c k p).collector ≡ true
  unfolding advance
  advance-is_some k none p e h = h.running
  advance-is_some (enter id) (some turn) p e h =
      enter_from-is_some turn.visiting turn.elapsed id p h
  advance-is_some (export pc_id) (some turn) p e h = export_from-is_some turn.visiting pc_id p h
  advance-is_some leave (some turn) p e h = refl
  advance-is_some finish (some turn) p e h = finish_from-is_some turn.visiting turn.elapsed p h

  move-is_some : (e : Point) (p : Process) → IsAlive p → is_some (move e p).collector ≡ true
  unfolding move
  move-is_some (request r) p h = h.running
  move-is_some (task k) p h = advance-is_some k p.collector p refl h

  interleave-IsAlive :
      (es : List Point) (p : Process) → All PointAsks es → IsAlive p → IsAlive (interleave es p)
  unfolding interleave
  interleave-IsAlive [] p good h = h
  interleave-IsAlive (e ∷ es) p good h = interleave-IsAlive es (move e p) good.1 (record {
    running = move-is_some e p h;
    polled = move-Each IsPolled-Preserved e p good.0 h.polled;
  })

  launch-is_some : (w : World) → is_some (launch w).collector ≡ true
  unfolding launch
  launch-is_some w = refl

  -- From the start of the server on, with requests between any two steps of the metrics task, the task
  -- is running, as long as every create_session asks for an interval of at least one second.
  pub interleave-launch-is_some :
      (es : List Point) (w : World)
      → All PointAsks es
      → is_some (interleave es (launch w)).collector ≡ true
  interleave-launch-is_some es w good =
      let start : IsAlive (launch w) = record {
        running = launch-is_some w;
        polled = launch-Each w;
      } in
      (interleave-IsAlive es (launch w) good start).running
