-- ===== src/System/Schedule/Asked.antt =====
-- src/data.rs, src/session.rs, src/peer_connection.rs: what a turn of the metrics task asks of libwebrtc.
use load_test_server.Prelude.{
  ℕ, ◌+◌, ◌≡◌, ◌≢◌, refl, sym, ap, ◌∙◌, inl, inr, ◌⊎◌, Bool, String, some, List, [], ◌∷◌, All,
  Distinct, map, arith, ◌==◌, ◌%◌,
}
use load_test_server.Result.{Held}
use load_test_server.Metrics.{Gauge, send_all}
use load_test_server.PeerConnection.{PeerConnectionManager}
use load_test_server.PeerConnection.Polling.{export_stats}
use load_test_server.PeerConnection.Polling.History.{export_stats_success}
use load_test_server.Session.{Session, export_at, export_each, export_peer_connection_stats}
use load_test_server.Session.Refresh.{still_there}
use load_test_server.Data.{Server, lookup}
use load_test_server.Data.Laws.{Each}
use load_test_server.Collection.{collect, collect_each, collect_session, session_ids}
use load_test_server.System.{System, tick, step}
use load_test_server.System.Collector.{IsPolled, collect_session-IsPolled, collect_each-IsPolled}
use load_test_server.System.Schedule.{collect_session_other}
use load_test_server.External.Types.{PeerConnectionStats}
use load_test_server.External.Platform.{Platform}

module _ ⦃P : Platform⦄ where
  open P use {World, Number, WebRtcError, by_name, webrtc_get_stats, gauge}
  open by_name use {get, entries, entries-Distinct, get_of_entries}

  pub still_stored :
      (elapsed : ℕ) (id : String) (s : Server) (l : List (String × Session))
      → All (λ j. j ≢ id) (map (λ e. e.0) l)
      → All (λ (e : String × Session). lookup e.0 s ≡ some e.1) l
      → All (λ (e : String × Session). lookup e.0 (collect_session elapsed id s).1 ≡ some e.1) l
  still_stored elapsed id s [] others there = tt
  still_stored elapsed id s (e ∷ l) others there = (
    collect_session_other elapsed e.0 id s (λ q. others.0 (sym q)) ∙ there.0,
    still_stored elapsed id s l others.1 there.1,
  )

  module _ (weight : P.PeerConnection → ℕ) (asked : World → ℕ) where
    -- the weights of connections, and of those of sessions
    abbrev pub in_session : List (String × PeerConnectionManager) → ℕ
    in_session [] = 0
    in_session ((_, pc) ∷ l) = weight pc.webrtc_peer_connection + in_session l

    abbrev pub in_all : List (String × Session) → ℕ
    in_all [] = 0
    in_all ((_, x) ∷ l) = in_session (entries x.peer_connections) + in_all l

    -- each question adds its connection's weight, and a gauge adds nothing
    pub record Counts : Type 0 where
      pub question :
          (c : P.PeerConnection) (w : World) → asked (webrtc_get_stats c w).1 ≡ asked w + weight c
      pub no_question :
          (name value : String) (tags : List String) (w : World)
          → asked (gauge name value tags w) ≡ asked w

    module _ (counts : Counts) where
      send_all-asked : (gs : List Gauge) (w : World) → asked (send_all gs w) ≡ asked w
      unfolding send_all
      send_all-asked [] w = refl
      send_all-asked (g ∷ gs) w =
          send_all-asked gs (gauge g.name g.value g.tags w)
          ∙ counts.no_question g.name g.value g.tags w

      export_stats-asked :
          (id : String) (poll : Bool) (pc : PeerConnectionManager) (w : World)
          (a : WebRtcError ⊎ PeerConnectionStats Number)
          → (webrtc_get_stats pc.webrtc_peer_connection w).0 ≡ a
          → asked (export_stats id poll (record { item = pc; world = w })).1.world
            ≡ asked w + weight pc.webrtc_peer_connection
      unfolding export_stats
      export_stats-asked id poll pc w (inl e) given =
          rw (given, export_stats) (counts.question pc.webrtc_peer_connection w)
      export_stats-asked id poll pc w (inr stats) given =
          let later = (webrtc_get_stats pc.webrtc_peer_connection w).1 in
          ap (λ r. asked (r.1.world))
            (export_stats_success id pc w later stats (ap (λ a. (a, later)) given) poll)
          ∙ send_all-asked _ later
          ∙ counts.question pc.webrtc_peer_connection w

      export_at-asked :
          (poll : Bool) (k : String) (pc : PeerConnectionManager) (s : Held Session World)
          → get s.item.peer_connections k ≡ some pc
          → asked (export_at poll k s).world ≡ asked s.world + weight pc.webrtc_peer_connection
      unfolding export_at
      export_at-asked poll k pc s found =
          rw (found, export_at) (export_stats-asked s.item.id poll pc s.world _ refl)

      export_each-asked :
          (poll : Bool) (l : List (String × PeerConnectionManager)) (s : Held Session World)
          → Distinct (map (λ e. e.0) l)
          → All
              (λ (e : String × PeerConnectionManager). get s.item.peer_connections e.0 ≡ some e.1)
              l
          → asked (export_each poll (map (λ e. e.0) l) s).world ≡ asked s.world + in_session l
      unfolding export_each
      export_each-asked poll [] s distinct there = omega arith
      export_each-asked poll ((k, pc) ∷ l) s distinct there = omega (
        arith,
        export_each-asked poll l (export_at poll k s) distinct.1
            (still_there poll k s l distinct.0 there.1),
        export_at-asked poll k pc s there.0,
      )

      export-asked :
          (poll : Bool) (x : Session) (w : World)
          → asked (export_peer_connection_stats poll (record { item = x; world = w })).world
            ≡ asked w + in_session (entries x.peer_connections)
      unfolding export_peer_connection_stats
      export-asked poll x w =
          export_each-asked poll (entries x.peer_connections) (record { item = x; world = w })
            (entries-Distinct x.peer_connections) (get_of_entries x.peer_connections)

      collect_session-asked :
          (elapsed : ℕ) (id : String) (x : Session) (s : Server)
          → Each IsPolled s
          → lookup id s ≡ some x
          → asked (collect_session elapsed id s).1.world
            ≡ asked s.world + in_session (entries x.peer_connections)
      unfolding collect_session
      collect_session-asked elapsed id x s h found =
          rw (found, collect_session)
            (rw (h.at id x found) (export-asked (elapsed % x.polling_state_s == 0) x s.world))

      collect_each-asked :
          (elapsed : ℕ) (l : List (String × Session)) (s : Server)
          → Distinct (map (λ e. e.0) l)
          → All (λ (e : String × Session). lookup e.0 s ≡ some e.1) l
          → Each IsPolled s
          → asked (collect_each elapsed (map (λ e. e.0) l) s).1.world ≡ asked s.world + in_all l
      unfolding collect_each
      collect_each-asked elapsed [] s distinct there h = omega arith
      collect_each-asked elapsed ((id, x) ∷ l) s distinct there h =
          let (e, later) = collect_session-IsPolled elapsed id s h in
          rw e (
            omega (
              arith,
              collect_each-asked elapsed l (collect_session elapsed id s).1 distinct.1
                  (still_stored elapsed id s l distinct.0 there.1) later,
              collect_session-asked elapsed id x s h there.0,
            ))

      -- Give every connection of libwebrtc a weight, and let `asked` be a quantity of the world to which
      -- each call of libwebrtc for a connection's statistics, failed or not, adds that connection's
      -- weight, and which sending a gauge leaves alone. While the task runs and the polling intervals
      -- of all sessions are a second at least, a turn of the metrics task, whichever sessions it polls,
      -- adds just the weights of all connections of all sessions that were stored before it: it asks
      -- for the statistics of each of them once.
      pub tick-asked :
          (elapsed : ℕ) (s : System)
          → s.collector ≡ some elapsed
          → Each IsPolled s.server
          → asked (step tick s).server.world
            ≡ asked s.server.world + in_all (entries s.server.item.sessions)
      unfolding step collect
      tick-asked elapsed s running h =
          let (e, later) = collect_each-IsPolled elapsed (session_ids s.server) s.server h in
          rw running (
            rw e (
              collect_each-asked elapsed (entries s.server.item.sessions) s.server
                (entries-Distinct s.server.item.sessions) (get_of_entries s.server.item.sessions)
                h))
