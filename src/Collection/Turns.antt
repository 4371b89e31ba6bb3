-- ===== src/Collection/Turns.antt =====
-- src/data.rs: the branches of one turn of the metrics task.
use load_test_server.Prelude.{
  ℕ, ◌%◌, ◌≡◌, ◌⊎◌, inl, inr, false, String, none, some, arith, ◌==◌, Option-cases, Bool-cases,
}
use load_test_server.Result.{ok, panic}
use load_test_server.Session.{Session, export_peer_connection_stats}
use load_test_server.Data.{Server, lookup, write}
use load_test_server.Collection.{collect_session}
use load_test_server.External.Platform.{Platform}

module _ ⦃P : Platform⦄ where
  open P use {World, by_name}

  -- Without the session nothing happens; with a polling interval of zero the task panics and nothing
  -- happens; otherwise the session's statistics are exported, and its states are polled exactly if
  -- its interval divides the elapsed seconds.
  pub collect_session_cases :
      (elapsed : ℕ) (id : String) (s : Server)
      → ((lookup id s ≡ none) × (collect_session elapsed id s ≡ (ok tt, s)))
        ⊎ ((x : Session) × (lookup id s ≡ some x)
            × (x.polling_state_s ≡ 0)
            × (collect_session elapsed id s ≡ (panic, s)))
        ⊎ ((x : Session) × (lookup id s ≡ some x)
            × ((x.polling_state_s == 0) ≡ false)
            × (collect_session elapsed id s ≡ (
                let t =
                  export_peer_connection_stats
                    (elapsed % x.polling_state_s == 0)
                    (record { item = x; world = s.world }) in
                (ok tt, write id t.item t.world s))))
  unfolding collect_session
  collect_session_cases elapsed id s = elim (Option-cases (lookup id s)) [
    | inl missing ↦ inl (missing, rw (missing, collect_session))
    | inr (x, found) ↦ elim (Bool-cases (x.polling_state_s == 0)) [
      | inl e ↦ inr (inl (x, found, ground arith, rw (found, collect_session) (ground (arith, e))))
      | inr e ↦ inr (inr (x, found, e, rw (found, collect_session) (ground (arith, e))))
    ]
  ]
