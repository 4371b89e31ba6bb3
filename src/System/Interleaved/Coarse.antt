-- ===== src/System/Interleaved/Coarse.antt =====
-- The machine of whole turns as schedules of the interleaved one.
use load_test_server.Prelude.{
  ℕ, ◌≡◌, refl, sym, ap, ◌∙◌, String, Option, none, some, List, [], ◌∷◌, ◌++◌, All, Distinct, map,
}
use load_test_server.Result.{Result, ok, err, panic, continue}
use load_test_server.Error.{ServerError}
use load_test_server.Session.{Session}
use load_test_server.Data.{Server, lookup}
use load_test_server.Collection.{collect, collect_session, collect_each, session_ids, next_elapsed}
use load_test_server.System.{Event, System, main, step, run, run_collector, next_collector}
use load_test_server.System.Schedule.Asked.{still_stored}
use load_test_server.System.Interleaved.{
  Point, Task, request, task, finish, Turn, Process, launch, move, interleave, advance,
}
use load_test_server.External.Platform.{Platform}
use load_test_server.System.Interleaved.Reach.{
  standing, after, visit, interleave-tasks, interleave-ended, interleave-visit,
}

module _ ⦃P : Platform⦄ where
  open P use {World, by_name}
  open by_name use {entries, entries-Distinct, get_of_entries}

  abbrev turn_of : Option ℕ → Option Turn
  turn_of none = none
  turn_of (some elapsed) = some (record { elapsed = elapsed; visiting = none })

  -- between two turns
  abbrev pub process_of : System → Process
  process_of s = record { server = s.server; collector = turn_of s.collector }

  abbrev visits : List (String × Session) → List Task
  visits [] = []
  visits (e ∷ l) = visit e ++ visits l

  -- the steps of a turn: over every session in the order of the map, and to the next turn
  abbrev pub turn : Server → List Task
  turn s = visits (entries s.item.sessions) ++ finish ∷ []

  -- a request is a step by itself, and a turn is its steps, with no request in between
  abbrev pub schedule : List Event → System → List Point
  schedule [] s = []
  schedule (Event.request r ∷ es) s = request r ∷ schedule es (step (Event.request r) s)
  schedule (Event.tick ∷ es) s = map task (turn s.server) ++ schedule es (step Event.tick s)

  continue-after :
      (elapsed : ℕ) (ks : List Task) (r : Result ServerError (Unit {0})) (t : Server)
      (f : Server → Result ServerError (Unit {0}) × Server)
      → interleave (map task ks) (standing none elapsed t) ≡ after elapsed (f t)
      → interleave (map task ks) (after elapsed (r, t)) ≡ after elapsed (continue r (λ _. f) t)
  continue-after elapsed ks (ok tt) t f rest = rest
  continue-after elapsed ks (err e) t f rest = interleave-ended ks t
  continue-after elapsed ks panic t f rest = interleave-ended ks t

  interleave-visits :
      (elapsed : ℕ) (l : List (String × Session)) (s : Server)
      → Distinct (map (λ e. e.0) l)
      → All (λ (e : String × Session). lookup e.0 s ≡ some e.1) l
      → interleave (map task (visits l)) (standing none elapsed s)
        ≡ after elapsed (collect_each elapsed (map (λ e. e.0) l) s)
  unfolding interleave collect_each
  interleave-visits elapsed [] s distinct there = refl
  interleave-visits elapsed ((id, x) ∷ l) s distinct there =
      let (r, t) = collect_session elapsed id s in
      interleave-tasks (visit (id, x)) (visits l) (standing none elapsed s)
      ∙ ap (interleave (map task (visits l))) (interleave-visit elapsed id x s there.0)
      ∙ continue-after elapsed (visits l) r t (collect_each elapsed (map (λ e. e.0) l)) (
          interleave-visits elapsed l t distinct.1 (still_stored elapsed id s l distinct.0 there.1))

  finish-after :
      (elapsed : ℕ) (r : Result ServerError (Unit {0})) (t : Server)
      → let (r', t') = continue r (λ _ u. (ok (next_elapsed elapsed u), u)) t in
        interleave (map task (finish ∷ [])) (after elapsed (r, t))
        ≡ process_of (record { server = t'; collector = next_collector r' })
  unfolding interleave move advance
  finish-after elapsed (ok tt) t = refl
  finish-after elapsed (err e) t = refl
  finish-after elapsed panic t = refl

  interleave-turn :
      (c : Option ℕ) (s : System)
      → s.collector ≡ c
      → interleave (map task (turn s.server)) (record { server = s.server; collector = turn_of c })
        ≡ process_of (run_collector c s)
  unfolding collect
  interleave-turn none s e =
      interleave-ended (turn s.server) s.server
      ∙ ap (λ (c : Option ℕ). record { server = s.server; collector = turn_of c }) (sym e)
  interleave-turn (some elapsed) s e =
      let l = entries s.server.item.sessions in
      let (r, t) = collect_each elapsed (session_ids s.server) s.server in
      interleave-tasks (visits l) (finish ∷ []) (standing none elapsed s.server)
      ∙ ap (interleave (map task (finish ∷ []))) (
          interleave-visits elapsed l s.server (entries-Distinct s.server.item.sessions)
            (get_of_entries s.server.item.sessions))
      ∙ finish-after elapsed r t

  interleave-append :
      (es ds : List Point) (p : Process) → interleave (es ++ ds) p ≡ interleave ds (interleave es p)
  unfolding interleave
  interleave-append [] ds p = refl
  interleave-append (e ∷ es) ds p = interleave-append es ds (move e p)

  interleave-schedule :
      (es : List Event) (s : System)
      → interleave (schedule es s) (process_of s) ≡ process_of (run es s)
  unfolding interleave move run step
  interleave-schedule [] s = refl
  interleave-schedule (Event.request r ∷ es) s = interleave-schedule es (step (Event.request r) s)
  interleave-schedule (Event.tick ∷ es) s =
      interleave-append (map task (turn s.server)) (schedule es (step Event.tick s)) (process_of s)
      ∙ ap (interleave (schedule es (step Event.tick s))) (interleave-turn s.collector s refl)
      ∙ interleave-schedule es (step Event.tick s)

  process_of-main : (w : World) → process_of (main w) ≡ launch w
  unfolding main launch
  process_of-main w = refl

  -- The finer machine, from its start, makes the same server as the machine of whole turns, with the
  -- task in the same place, ended or before the same turn, when each turn is replaced by its single
  -- steps: into each session in the order of the map, over each of its connections in the order of
  -- their map, out of it, and at last to the next turn. Once a step has ended the task by its panic,
  -- the steps after it change nothing.
  pub run-main-interleave :
      (es : List Event) (w : World)
      → interleave (schedule es (main w)) (launch w) ≡ process_of (run es (main w))
  run-main-interleave es w =
      ap (interleave (schedule es (main w))) (sym (process_of-main w))
      ∙ interleave-schedule es (main w)
