-- ===== src/Collection.antt =====
-- src/data.rs: the task that exports the statistics of every session once a second. The remainder by
-- a polling interval of zero panics, which ends the task.
pub mod Turns
use load_test_server.Prelude.{
  ℕ, ◌+◌, ◌%◌, ◌^◌, String, none, some, List, [], ◌∷◌, map, length, ◌==◌, if◌then◌else◌,
}
use load_test_server.Result.{Exec, ok, panic, ◌>>◌}
use load_test_server.Error.{ServerError}
use load_test_server.Session.{export_peer_connection_stats}
use load_test_server.Data.{Server, lookup, write}
use load_test_server.External.Platform.{Platform}

module _ ⦃P : Platform⦄ where
  open P use {by_name}
  open by_name use {entries}

  -- the body of the loop over the sessions
  unfoldable pub collect_session : ℕ → String → Exec Server ServerError (Unit {0})
  collect_session elapsed id s = elim (lookup id s) [
    | none ↦ (ok tt, s)
    | some session ↦
        if session.polling_state_s == 0
        then (panic, s)
        else (let t =
              export_peer_connection_stats (elapsed % session.polling_state_s == 0)
                (record { item = session; world = s.world }) in
            (ok tt, write id t.item t.world s))
  ]

  unfoldable pub collect_each : ℕ → List String → Exec Server ServerError (Unit {0})
  collect_each elapsed [] s = (ok tt, s)
  collect_each elapsed (id ∷ ids) s = (collect_session elapsed id >> collect_each elapsed ids) s

  abbrev pub session_ids : Server → List String
  session_ids s = map (λ e. e.0) (entries s.item.sessions)

  -- u64, which wraps
  unfoldable pub next_elapsed : ℕ → Server → ℕ
  next_elapsed elapsed s =
      if length (entries s.item.sessions) == 0 then 1 else (elapsed + 1) % 2 ^ 64

  -- one turn of the loop, with the next value of `elapsed`
  unfoldable pub collect : ℕ → Exec Server ServerError ℕ
  unfolding collect_each next_elapsed
  collect elapsed s =
      (collect_each elapsed (session_ids s) >> λ t. (ok (next_elapsed elapsed t), t)) s
