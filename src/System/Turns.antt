-- ===== src/System/Turns.antt =====
-- src/data.rs: what a client can tell of a session, over a turn of the metrics task.
use text.Mathlib.TextEquality.{eq_iff}
use load_test_server.Prelude.{
  ℕ, ◌%◌, ◌==◌, ◌≡◌, refl, ◌∙◌, inl, inr, Bool, String, Option, none, some, List, [], ◌∷◌, map,
  arith,
}
use load_test_server.Result.{Result, Exec, Held, ok, err, panic, continue}
use load_test_server.Session.{Session, export_at, export_each, export_peer_connection_stats}
use load_test_server.Data.{Server, lookup, write}
use load_test_server.Data.Laws.{lookup-write}
use load_test_server.Collection.{collect, collect_each, collect_session, session_ids, next_elapsed}
use load_test_server.Collection.Turns.{collect_session_cases}
use load_test_server.System.{System, run_collector}
use load_test_server.System.Lifecycle.{view}
use load_test_server.External.Platform.{Platform}

module _ ⦃P : Platform⦄ where
  open P use {World, by_name}
  open by_name use {entries}

  pub export_at_state :
      (poll : Bool) (pc_id : String) (s : Held Session World)
      → (export_at poll pc_id s).item.state ≡ s.item.state
  unfolding export_at
  export_at_state poll pc_id s = ground arith

  export_each_state :
      (poll : Bool) (pc_ids : List String) (s : Held Session World)
      → (export_each poll pc_ids s).item.state ≡ s.item.state
  unfolding export_each
  export_each_state poll [] s = refl
  export_each_state poll (pc_id ∷ pc_ids) s =
      export_each_state poll pc_ids (export_at poll pc_id s) ∙ export_at_state poll pc_id s

  export_state :
      (poll : Bool) (s : Held Session World)
      → (export_peer_connection_stats poll s).item.state ≡ s.item.state
  unfolding export_peer_connection_stats
  export_state poll s = export_each_state poll (map (λ e. e.0) (entries s.item.peer_connections)) s

  view-write_same :
      (id j : String) (x y : Session) (w : World) (s : Server)
      → lookup j s ≡ some x
      → y.state ≡ x.state
      → view id (write j y w s) ≡ view id s
  view-write_same id j x y w s found same =
      ground (arith, lookup-write j y w s id, found, same, eq_iff j id)

  view-collect_session :
      (elapsed : ℕ) (id j : String) (s : Server)
      → view id (collect_session elapsed j s).1 ≡ view id s
  view-collect_session elapsed id j s = elim (collect_session_cases elapsed j s) [
    | inl (missing, e) ↦ rw e refl
    | inr (inl (x, found, zero_interval, e)) ↦ rw e refl
    | inr (inr (x, found, nonzero, e)) ↦
        let t =
          export_peer_connection_stats (elapsed % x.polling_state_s == 0)
            (record { item = x; world = s.world }) in
        rw e (
          view-write_same id j x t.item t.world s found (
            export_state (elapsed % x.polling_state_s == 0) (record { item = x; world = s.world })))
  ]

  view-continue :
      {A B E : Type 0} (id : String) (r : Result E A) (f : A → Exec Server E B) (t s : Server)
      → view id t ≡ view id s
      → ((a : A) → view id (f a t).1 ≡ view id s)
      → view id (continue r f t).1 ≡ view id s
  view-continue id (ok a) f t s h k = k a
  view-continue id (err e) f t s h k = h
  view-continue id panic f t s h k = h

  view-collect_each :
      (elapsed : ℕ) (id : String) (ids : List String) (s : Server)
      → view id (collect_each elapsed ids s).1 ≡ view id s
  unfolding collect_each
  view-collect_each elapsed id [] s = refl
  view-collect_each elapsed id (j ∷ ids) s =
      let first = view-collect_session elapsed id j s in
      view-continue id (collect_session elapsed j s).0 (λ _. collect_each elapsed ids) _ s first
        (λ _. view-collect_each elapsed id ids _ ∙ first)

  pub view-run_collector :
      (id : String) (c : Option ℕ) (s : System)
      → view id (run_collector c s).server ≡ view id s.server
  unfolding collect
  view-run_collector id none s = refl
  view-run_collector id (some elapsed) s =
      let all = view-collect_each elapsed id (session_ids s.server) s.server in
      view-continue id (collect_each elapsed (session_ids s.server) s.server).0
        (λ _ t. (ok (next_elapsed elapsed t), t)) _ s.server all (λ _. all)
