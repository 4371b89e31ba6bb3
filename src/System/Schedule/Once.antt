-- ===== src/System/Schedule/Once.antt =====
-- src/data.rs: the polls of a session over as many turns as its interval has seconds.
use load_test_server.Prelude.{
  ℕ, ◌+◌, ◌^◌, ◌<◌, ◌≡◌, refl, ap, ◌∙◌, inl, inr, ◌⊎◌, Bool, true, false, String, some, List, [],
  ◌∷◌, map, arith, Option-cases,
}
use load_test_server.Result.{Held}
use load_test_server.PeerConnection.{PeerConnectionManager}
use load_test_server.PeerConnection.Polling.{export_stats}
use load_test_server.PeerConnection.Polling.History.{export_stats_success}
use load_test_server.Session.{Session, export_at, export_each, export_peer_connection_stats}
use load_test_server.Data.{lookup}
use load_test_server.Data.Laws.{Each}
use load_test_server.System.{System, run}
use load_test_server.System.Collector.{IsPolled}
use load_test_server.System.Schedule.{ticks, Exported, run-ticks-Exported, export_in}
use load_test_server.System.Schedule.Remainders.{trues, trues-due}
use load_test_server.External.Types.{PeerConnectionStats}
use load_test_server.External.Platform.{Platform}

module _ ⦃P : Platform⦄ where
  open P use {World, Number, WebRtcError, by_name, webrtc_get_stats}
  open by_name use {get, entries, insert-get}

  -- an export without polling leaves the connection alone
  export_stats-unpolled :
      (id : String) (pc : PeerConnectionManager) (w : World)
      (a : WebRtcError ⊎ PeerConnectionStats Number)
      → (webrtc_get_stats pc.webrtc_peer_connection w).0 ≡ a
      → (export_stats id false (record { item = pc; world = w })).1.item ≡ pc
  unfolding export_stats
  export_stats-unpolled id pc w (inl e) given = rw (given, export_stats) refl
  export_stats-unpolled id pc w (inr stats) given =
      let later = (webrtc_get_stats pc.webrtc_peer_connection w).1 in
      ap (λ r. r.1.item)
        (export_stats_success id pc w later stats (ap (λ a. (a, later)) given) false)

  export_at-unpolled : (k : String) (s : Held Session World) → (export_at false k s).item ≡ s.item
  unfolding export_at
  export_at-unpolled k s = elim (Option-cases (get s.item.peer_connections k)) [
    | inl missing ↦ rw (missing, export_at) refl
    | inr (pc, found) ↦
        rw (found, export_at)
          (rw
            (
              export_stats-unpolled s.item.id pc s.world _ refl,
              insert-get s.item.peer_connections k pc found,
            )
            refl)
  ]

  export_each-unpolled :
      (ids : List String) (s : Held Session World) → (export_each false ids s).item ≡ s.item
  unfolding export_each
  export_each-unpolled [] s = refl
  export_each-unpolled (k ∷ ids) s =
      export_each-unpolled ids (export_at false k s) ∙ export_at-unpolled k s

  export_in-unpolled : (w : World) (x : Session) → export_in false w x ≡ x
  unfolding export_peer_connection_stats
  export_in-unpolled w x =
      export_each-unpolled (map (λ e. e.0) (entries x.peer_connections))
        (record { item = x; world = w })

  Exported-none : {polls : List Bool} {x y : Session} → Exported polls x y → trues polls ≡ 0 → y ≡ x
  Exported-none Exported.done none_true = refl
  Exported-none (Exported.once {poll = false} {x = x} w rest) none_true =
      Exported-none rest (omega (arith, none_true)) ∙ export_in-unpolled w x
  Exported-none (Exported.once {poll = true} w rest) none_true = absurd (omega (arith, none_true))

  Exported-one :
      {polls : List Bool} {x y : Session}
      → Exported polls x y
      → trues polls ≡ 1
      → (w : World) × (y ≡ export_in true w x)
  Exported-one Exported.done one_true = absurd (omega (arith, one_true))
  Exported-one (Exported.once {poll = false} {x = x} w rest) one_true =
      let (v, e) = Exported-one rest (omega (arith, one_true)) in
      (v, e ∙ ap (export_in true v) (export_in-unpolled w x))
  Exported-one (Exported.once {poll = true} w rest) one_true =
      (w, Exported-none rest (omega (arith, one_true)))

  -- Any turns in a row of the metrics task, as many as a session's polling interval has seconds, poll
  -- the session's states exactly once: the session after them is what one call of
  -- export_peer_connection_stats with should_poll_state makes of the session before them, in some
  -- world. The task runs, the intervals of all sessions are a second at least, and the elapsed seconds
  -- do not wrap.
  pub run-ticks-polled_once :
      (elapsed : ℕ) (id : String) (x : Session) (s : System)
      → s.collector ≡ some elapsed
      → elapsed + x.polling_state_s < 2 ^ 64
      → Each IsPolled s.server
      → lookup id s.server ≡ some x
      → (w : World) × (lookup id (run (ticks x.polling_state_s) s).server
          ≡ some (export_in true w x))
  run-ticks-polled_once elapsed id x s running room h found =
      let p = x.polling_state_s in
      let (counted, (y, later, exported)) =
        run-ticks-Exported p elapsed id x s running room h found in
      let (w, e) = Exported-one exported (trues-due p elapsed (ground (arith, h.at id x found))) in
      (w, later ∙ ap some e)
