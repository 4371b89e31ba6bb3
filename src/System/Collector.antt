-- ===== src/System/Collector.antt =====
-- src/data.rs: the metrics task and the polling intervals of the sessions.
use text.Mathlib.TextEquality.{eq_iff}
use load_test_server.Prelude.{
  ℕ, ◌≡◌, refl, ap, ◌∙◌, ◌⊎◌, inl, inr, Bool, true, false, is_some, String, Option, none, some,
  List, [], ◌∷◌, Memᴰ, arith, ◌==◌, map,
}
use load_test_server.Result.{Held, ok, panic}
use load_test_server.Session.{Session, export_at, export_each, export_peer_connection_stats}
use load_test_server.Data.{Server, lookup, write}
use load_test_server.Data.Laws.{Each, Each-write, lookup-write}
use load_test_server.Collection.{collect, collect_each, collect_session, session_ids}
use load_test_server.Collection.Turns.{collect_session_cases}
use load_test_server.System.{Event, tick, request, System, step, run, run_collector}
use load_test_server.External.Platform.{Platform}

module _ ⦃P : Platform⦄ where
  open P use {World, by_name}
  open by_name use {entries, mem-entries}

  -- some session has a polling interval of zero seconds
  pub record HasZero (id : String) (s : Server) : Type 0 where
    pub session : Session
    pub found : lookup id s ≡ some session
    pub zero_interval : session.polling_state_s ≡ 0

  -- a write at a session of another interval
  HasZero-write :
      (id j : String) (x y : Session) (w : World) (s : Server)
      → lookup id s ≡ some x
      → (x.polling_state_s == 0) ≡ false
      → HasZero j s
      → HasZero j (write id y w s)
  HasZero-write id j x y w s found nonzero h = record {
    session = h.session;
    found =
        ground
          (arith, lookup-write id y w s j, eq_iff id j, h.found, h.zero_interval, found, nonzero);
    zero_interval = h.zero_interval;
  }

  -- a turn for one session ends in a panic, or goes on with the session still there
  collect_session-HasZero :
      (elapsed : ℕ) (id j : String) (s : Server)
      → HasZero j s
      → ((collect_session elapsed id s).0 ≡ panic)
        ⊎ (((collect_session elapsed id s).0 ≡ ok tt) × HasZero j (collect_session elapsed id s).1)
  collect_session-HasZero elapsed id j s h = elim (collect_session_cases elapsed id s) [
    | inl (missing, e) ↦ rw e (inr (refl, h))
    | inr (inl (x, found, zero_interval, e)) ↦ rw e (inl refl)
    | inr (inr (x, found, nonzero, e)) ↦
        rw e (inr (refl, HasZero-write id j x _ _ s found nonzero h))
  ]

  collect_session_zero :
      (elapsed : ℕ) (id : String) (s : Server)
      → HasZero id s
      → (collect_session elapsed id s).0 ≡ panic
  collect_session_zero elapsed id s h = elim (collect_session_cases elapsed id s) [
    | inl (missing, e) ↦ absurd (ground (arith, missing, h.found))
    | inr (inl (x, found, zero_interval, e)) ↦ rw e refl
    | inr (inr (x, found, nonzero, e)) ↦
        absurd (ground (arith, found, nonzero, h.found, h.zero_interval))
  ]

  collect_each_zero :
      (elapsed : ℕ) (ids : List String) (id : String) (s : Server)
      → Memᴰ id ids
      → HasZero id s
      → (collect_each elapsed ids s).0 ≡ panic
  unfolding collect_each
  collect_each_zero elapsed [] id s m h = elim m [ ]
  collect_each_zero elapsed (j ∷ ids) id s (Memᴰ.head e) h =
      rw (collect_session_zero elapsed j s (rw (← e) h)) refl
  collect_each_zero elapsed (j ∷ ids) id s (Memᴰ.tail m) h =
      elim (collect_session-HasZero elapsed j id s h) [
        | inl e ↦ rw e refl
        | inr (e, later) ↦ rw e (collect_each_zero elapsed ids id _ m later)
      ]

  pub mem-session_ids :
      (id : String) (x : Session) (s : Server) → lookup id s ≡ some x → Memᴰ id (session_ids s)
  mem-session_ids id x s found = go (mem-entries s.item.sessions id x found)
    where
      go : {l : List (String × Session)} → Memᴰ (id, x) l → Memᴰ id (map (λ e. e.0) l)
      go (Memᴰ.head e) = Memᴰ.head (ap (λ (d : String × Session). d.0) e)
      go (Memᴰ.tail m) = Memᴰ.tail (go m)

  run_none : (es : List Event) (s : System) → s.collector ≡ none → (run es s).collector ≡ none
  unfolding run step
  run_none [] s h = h
  run_none (request r ∷ es) s h = run_none es _ h
  run_none (tick ∷ es) s h = run_none es _ (ended s.collector h refl)
    where
      ended : (c : Option ℕ) → c ≡ none → s.collector ≡ c → (run_collector c s).collector ≡ none
      ended none e same = same
      ended (some elapsed) e same = cc

  tick_zero :
      (s : System) (c : Option ℕ) (id : String)
      → s.collector ≡ c
      → HasZero id s.server
      → (run_collector c s).collector ≡ none
  unfolding collect
  tick_zero s none id e h = e
  tick_zero s (some elapsed) id e h =
      rw
        (collect_each_zero elapsed (session_ids s.server) id s.server
          (mem-session_ids id h.session s.server h.found) h)
        refl

  -- If some session has a polling interval of zero, the next turn of the metrics task is its last: the
  -- remainder by zero panics, and no later request or turn brings the task back.
  pub run-tick_zero :
      (s : System) (id : String) (x : Session) (es : List Event)
      → lookup id s.server ≡ some x
      → x.polling_state_s ≡ 0
      → (run (tick ∷ es) s).collector ≡ none
  unfolding run step
  run-tick_zero s id x es found zero_interval = run_none es (run_collector s.collector s) (
      tick_zero s s.collector id refl
        (record { session = x; found = found; zero_interval = zero_interval }))

  -- the intervals of all sessions are at least a second
  abbrev pub IsPolled : String → Session → Type 0
  IsPolled id x = (x.polling_state_s == 0) ≡ false

  pub export_at_interval :
      (poll : Bool) (pc_id : String) (s : Held Session World)
      → (export_at poll pc_id s).item.polling_state_s ≡ s.item.polling_state_s
  unfolding export_at
  export_at_interval poll pc_id s = ground arith

  pub export_each_interval :
      (poll : Bool) (pc_ids : List String) (s : Held Session World)
      → (export_each poll pc_ids s).item.polling_state_s ≡ s.item.polling_state_s
  unfolding export_each
  export_each_interval poll [] s = refl
  export_each_interval poll (pc_id ∷ pc_ids) s =
      export_each_interval poll pc_ids (export_at poll pc_id s) ∙ export_at_interval poll pc_id s

  pub collect_session-IsPolled :
      (elapsed : ℕ) (id : String) (s : Server)
      → Each IsPolled s
      → ((collect_session elapsed id s).0 ≡ ok tt) × Each IsPolled (collect_session elapsed id s).1
  unfolding export_peer_connection_stats
  collect_session-IsPolled elapsed id s h = elim (collect_session_cases elapsed id s) [
    | inl (missing, e) ↦ rw e (refl, h)
    | inr (inl (x, found, zero_interval, e)) ↦
        absurd (ground (arith, zero_interval, h.at id x found))
    | inr (inr (x, found, nonzero, e)) ↦
        rw e (refl, Each-write id _ _ s h (rw export_each_interval nonzero))
  ]

  pub collect_each-IsPolled :
      (elapsed : ℕ) (ids : List String) (s : Server)
      → Each IsPolled s
      → ((collect_each elapsed ids s).0 ≡ ok tt) × Each IsPolled (collect_each elapsed ids s).1
  unfolding collect_each
  collect_each-IsPolled elapsed [] s h = (refl, h)
  collect_each-IsPolled elapsed (id ∷ ids) s h =
      let (e, later) = collect_session-IsPolled elapsed id s h in
      rw e (collect_each-IsPolled elapsed ids _ later)

  -- If the intervals of all sessions are at least a second, a turn of the metrics task leaves the task
  -- running and the intervals as they are.
  pub tick-IsPolled :
      (s : System) (elapsed : ℕ)
      → s.collector ≡ some elapsed
      → Each IsPolled s.server
      → (is_some (step tick s).collector ≡ true) × Each IsPolled (step tick s).server
  unfolding step collect
  tick-IsPolled s elapsed running h =
      let (e, later) = collect_each-IsPolled elapsed (session_ids s.server) s.server h in
      rw running (rw e (refl, later))
