-- ===== src/System/Schedule.antt =====
-- src/data.rs: which sessions the turns of the metrics task export, and when they poll.
pub mod Remainders
pub mod Once
pub mod Asked
pub mod Told
use text.Mathlib.TextEquality.{eq_iff}
use load_test_server.Prelude.{
  ℕ, zero, suc, ◌+◌, ◌%◌, ◌^◌, ◌<◌, ◌≡◌, ◌≢◌, refl, subst, sym, ap, ◌∙◌, inl, inr, Bool, true,
  false, String, Option, none, some, List, [], ◌∷◌, ◌==◌, All, Memᴰ, Distinct, All-mem, length,
  arith, if◌then◌else◌, map,
}
use load_test_server.Result.{Held, ok, panic}
use load_test_server.Session.{Session, export_peer_connection_stats}
use load_test_server.Data.{Server, lookup, write}
use load_test_server.Data.Laws.{Each, lookup-write}
use load_test_server.Collection.{collect, collect_each, collect_session, session_ids, next_elapsed}
use load_test_server.Collection.Turns.{collect_session_cases}
use load_test_server.System.{Event, tick, System, step, run}
use load_test_server.System.Collector.{
  IsPolled, collect_session-IsPolled, collect_each-IsPolled, export_each_interval, mem-session_ids,
}
use load_test_server.External.Platform.{Platform}

-- whether an interval is due in each of the turns from one on
abbrev pub due : ℕ → ℕ → ℕ → List Bool
due interval elapsed zero = []
due interval elapsed (suc n) = (elapsed % interval == 0) ∷ due interval (elapsed + 1) n

module _ ⦃P : Platform⦄ where
  open P use {World, by_name}
  open by_name use {entries, mem-entries, entries-Distinct, get-insert_self, get-insert_ne}

  abbrev pub export_in : Bool → World → Session → Session
  export_in poll w x = (export_peer_connection_stats poll (record { item = x; world = w })).item

  -- what calls of export_peer_connection_stats in a row, one for each of the flags and each in some
  -- world, make of a session
  pub data Exported : List Bool → Session → Session → Type 0 where
    done : {x : Session} → Exported [] x x
    once :
        {poll : Bool} {polls : List Bool} {x y : Session} (w : World)
        → Exported polls (export_in poll w x) y
        → Exported (poll ∷ polls) x y

  pub collect_session_other :
      (elapsed : ℕ) (id j : String) (s : Server)
      → j ≢ id
      → lookup id (collect_session elapsed j s).1 ≡ lookup id s
  collect_session_other elapsed id j s other = elim (collect_session_cases elapsed j s) [
    | inl (missing, e) ↦ rw e refl
    | inr (inl (x, found, zero_interval, e)) ↦ rw e refl
    | inr (inr (x, found, nonzero, e)) ↦ rw e (get-insert_ne s.item.sessions j id _ other)
  ]

  -- one export of the session, in some world
  abbrev Visited : Bool → String → Session → Server → Type 0
  Visited poll id x t = (w : World) × (lookup id t ≡ some (export_in poll w x))

  collect_session-Visited :
      (elapsed : ℕ) (id : String) (x : Session) (s : Server)
      → Each IsPolled s
      → lookup id s ≡ some x
      → Visited (elapsed % x.polling_state_s == 0) id x (collect_session elapsed id s).1
  unfolding collect_session
  collect_session-Visited elapsed id x s h found = (
    s.world,
    rw (found, collect_session) (rw (h.at id x found) (get-insert_self s.item.sessions id _)),
  )

  pub collect_each_others :
      (elapsed : ℕ) (id : String) (ids : List String) (s : Server)
      → All (λ j. j ≢ id) ids
      → Each IsPolled s
      → lookup id (collect_each elapsed ids s).1 ≡ lookup id s
  unfolding collect_each
  collect_each_others elapsed id [] s others h = refl
  collect_each_others elapsed id (j ∷ ids) s others h =
      let (e, later) = collect_session-IsPolled elapsed j s h in
      rw e (collect_each_others elapsed id ids _ others.1 later)
      ∙ collect_session_other elapsed id j s others.0

  collect_each-Visited :
      (elapsed : ℕ) (id : String) (ids : List String) (x : Session) (s : Server)
      → Distinct ids
      → Memᴰ id ids
      → Each IsPolled s
      → lookup id s ≡ some x
      → Visited (elapsed % x.polling_state_s == 0) id x (collect_each elapsed ids s).1
  unfolding collect_each
  collect_each-Visited elapsed id [] x s distinct m h found = elim m [ ]
  collect_each-Visited elapsed id (j ∷ ids) x s distinct (Memᴰ.head same) h found =
      let (e, later) = collect_session-IsPolled elapsed j s h in
      let (w, visited) = collect_session-Visited elapsed id x s h found in
      let others = subst (λ k. All (λ i. i ≢ k) ids) (sym same) distinct.0 in
      rw e (
        w,
        collect_each_others elapsed id ids _ others later
            ∙ ap (λ k. lookup id (collect_session elapsed k s).1) (sym same)
            ∙ visited,
      )
  collect_each-Visited elapsed id (j ∷ ids) x s distinct (Memᴰ.tail m) h found =
      let (e, later) = collect_session-IsPolled elapsed j s h in
      let other = All-mem (λ i. i ≢ j) m distinct.0 in
      rw e (
        collect_each-Visited elapsed id ids x _ distinct.1 m later
          (collect_session_other elapsed id j s (λ q. other (sym q)) ∙ found))

  nonempty :
      (id : String) (x : Session) (s : Server)
      → lookup id s ≡ some x
      → (length (entries s.item.sessions) == 0) ≡ false
  nonempty id x s found = go (mem-entries s.item.sessions id x found)
    where
      go : {l : List (String × Session)} → Memᴰ (id, x) l → (length l == 0) ≡ false
      go (Memᴰ.head e) = ground arith
      go (Memᴰ.tail m) = ground arith

  export_interval :
      (poll : Bool) (w : World) (x : Session)
      → (export_in poll w x).polling_state_s ≡ x.polling_state_s
  unfolding export_peer_connection_stats
  export_interval poll w x =
      export_each_interval poll (map (λ e. e.0) (entries x.peer_connections))
        (record { item = x; world = w })

  -- how a turn leaves the task and the session
  pub record Turned (elapsed : ℕ) (id : String) (x : Session) (t : System) : Type 0 where
    pub counted : t.collector ≡ some (elapsed + 1)
    pub polled : Each IsPolled t.server
    pub world : World
    pub visited : lookup id t.server ≡ some (export_in (elapsed % x.polling_state_s == 0) world x)

  pub tick-Turned :
      (elapsed : ℕ) (id : String) (x : Session) (s : System)
      → s.collector ≡ some elapsed
      → elapsed + 1 < 2 ^ 64
      → Each IsPolled s.server
      → lookup id s.server ≡ some x
      → Turned elapsed id x (step tick s)
  unfolding step collect next_elapsed
  tick-Turned elapsed id x s running room h found =
      let ids = session_ids s.server in
      let member = mem-session_ids id x s.server found in
      let (e, later) = collect_each-IsPolled elapsed ids s.server h in
      let (w, visited) =
        collect_each-Visited elapsed id ids x s.server (entries-Distinct s.server.item.sessions)
          member h found in
      rw running (
        rw e (record {
          counted =
              rw (nonempty id _ (collect_each elapsed ids s.server).1 visited)
                (ap some (omega arith));
          polled = later;
          world = w;
          visited = visited;
        }))

  abbrev pub ticks : ℕ → List Event
  ticks zero = []
  ticks (suc n) = tick ∷ ticks n

  -- As long as the intervals of all sessions are at least a second and the elapsed seconds do not wrap,
  -- each turn of the metrics task counts one second more and makes of a session in the map what a call
  -- of export_peer_connection_stats makes of it in some world, with should_poll_state in just the turns
  -- whose number of elapsed seconds its interval divides.
  pub run-ticks-Exported :
      (n elapsed : ℕ) (id : String) (x : Session) (s : System)
      → s.collector ≡ some elapsed
      → elapsed + n < 2 ^ 64
      → Each IsPolled s.server
      → lookup id s.server ≡ some x
      → ((run (ticks n) s).collector ≡ some (elapsed + n))
        × ((y : Session) × (lookup id (run (ticks n) s).server ≡ some y)
            × Exported (due x.polling_state_s elapsed n) x y)
  unfolding run
  run-ticks-Exported zero elapsed id x s running room h found =
      (running ∙ ap some (omega arith), (x, found, done))
  run-ticks-Exported (suc n) elapsed id x s running room h found =
      let t = tick-Turned elapsed id x s running (omega arith) h found in
      let next = export_in (elapsed % x.polling_state_s == 0) t.world x in
      let (counted, (y, later, exported)) =
        run-ticks-Exported n (elapsed + 1) id next (step tick s) t.counted (omega arith) t.polled
          t.visited in
      (
        counted ∙ ap some (omega arith),
        (
          y,
          later,
          once t.world (
              subst (λ i. Exported (due i (elapsed + 1) n) next y) (export_interval _ t.world x)
                exported),
        ),
      )
