-- ===== src/System/Schedule/Told.antt =====
-- src/data.rs, src/session.rs, src/stats.rs, src/handlers.rs: what a client is told after a turn of the
-- metrics task.
use load_test_server.Prelude.{
  ℕ, ◌+◌, ◌%◌, ◌^◌, ◌<◌, ◌≡◌, ◌≢◌, refl, sym, subst, ◌∙◌, some, true, String, List, [], ◌∷◌, ◌++◌,
  All, Distinct, length, arith,
}
use load_test_server.Result.{ok}
use load_test_server.PeerConnection.{PeerConnectionManager}
use load_test_server.Session.{Session, peer_connection_states}
use load_test_server.Session.Refresh.{Answer, answered}
use load_test_server.Session.Reported.{
  sent_more, received_more, count, peer_connection_states-export,
}
use load_test_server.Stats.{
  WebrtcPeerConnectionState, webrtc_peer_connection_state, WebrtcSessionStats, session_stats,
  webrtc_session_stats,
}
use load_test_server.Data.{Server, lookup, call_session}
use load_test_server.Data.Laws.{Each}
use load_test_server.Collection.{collect, collect_each, collect_session, session_ids}
use load_test_server.Handlers.Sessions.{get_stats}
use load_test_server.System.{System, tick, step}
use load_test_server.System.Collector.{IsPolled, collect_session-IsPolled, collect_each-IsPolled}
use load_test_server.System.Schedule.{export_in, collect_session_other, collect_each_others}
use load_test_server.Webrtc.{GetStatsRequest}
use load_test_server.External.Platform.{Platform}

All-middle : (P : String → Type 0) {a : String} (l r : List String) → All P (l ++ a ∷ r) → P a
All-middle P [] r h = h.0
All-middle P (x ∷ l) r h = All-middle P l r h.1

module _ ⦃P : Platform⦄ where
  open P use {World, Number, by_name}
  open by_name use {entries, entries-Distinct, get-insert_self}

  -- an answer, with libwebrtc's answers for the connections of the session in the turn
  pub record Tells (l : List (String × (Answer × PeerConnectionManager))) (r : WebrtcSessionStats)
      : Type 0 where
    pub states : WebrtcPeerConnectionState
    pub same_states : r.peer_connection_state ≡ some states
    pub sending : states.num_sending ≡ count sent_more l
    pub all_send : states.num_sending + states.num_not_sending ≡ length l
    pub receiving : states.num_receiving ≡ count received_more l
    pub all_receive : states.num_receiving + states.num_not_receiving ≡ length l

  -- libwebrtc's answers for the connections of a session from a world on
  abbrev pub answers_in : Session → World → List (String × (Answer × PeerConnectionManager))
  answers_in x w = answered x.id (entries x.peer_connections) w

  length-answered :
      (id : String) (l : List (String × PeerConnectionManager)) (w : World)
      → length (answered id l w) ≡ length l
  length-answered id [] w = refl
  length-answered id (e ∷ l) w = omega (arith, length-answered id l _)

  export-Tells :
      (x : Session) (v w : World)
      → length (entries x.peer_connections) < 2 ^ 31
      → Tells (answers_in x v) (webrtc_session_stats (session_stats (export_in true v x) w).0)
  unfolding webrtc_session_stats session_stats webrtc_peer_connection_state
  export-Tells x v w few =
      let (sending, all_send, receiving, all_receive) =
        peer_connection_states-export (record { item = x; world = v }) few in
      let size = length-answered x.id (entries x.peer_connections) v in
      record {
        states = webrtc_peer_connection_state (peer_connection_states (export_in true v x));
        same_states = refl;
        sending = sending;
        all_send = all_send ∙ sym size;
        receiving = receiving;
        all_receive = all_receive ∙ sym size;
      }

  collect_each-visited :
      (elapsed : ℕ) (id : String) (earlier later : List String) (x : Session) (s : Server)
      → Distinct (earlier ++ id ∷ later)
      → Each IsPolled s
      → lookup id s ≡ some x
      → elapsed % x.polling_state_s ≡ 0
      → lookup id (collect_each elapsed (earlier ++ id ∷ later) s).1
        ≡ some (export_in true (collect_each elapsed earlier s).1.world x)
  unfolding collect_each collect_session
  collect_each-visited elapsed id [] later x s distinct h found due =
      let (e, polled) = collect_session-IsPolled elapsed id s h in
      rw e (
        collect_each_others elapsed id later (collect_session elapsed id s).1 distinct.0 polled
        ∙ rw (found, collect_session)
            (rw (h.at id x found, due) (get-insert_self s.item.sessions id _)))
  collect_each-visited elapsed id (j ∷ earlier) later x s distinct h found due =
      let (e, polled) = collect_session-IsPolled elapsed j s h in
      let other = All-middle (λ i. i ≢ j) earlier later distinct.0 in
      rw e (
        collect_each-visited elapsed id earlier later x (collect_session elapsed j s).1 distinct.1
          polled (collect_session_other elapsed id j s (λ q. other (sym q)) ∙ found) due)

  tick-server :
      (elapsed : ℕ) (s : System)
      → s.collector ≡ some elapsed
      → Each IsPolled s.server
      → (step tick s).server ≡ (collect_each elapsed (session_ids s.server) s.server).1
  unfolding step collect
  tick-server elapsed s running h =
      let (e, later) = collect_each-IsPolled elapsed (session_ids s.server) s.server h in
      rw running (rw e refl)

  -- Let the polling interval of a session divide the elapsed seconds of a turn of the metrics task, and
  -- let the turn visit the sessions `earlier` before this one. Then get_stats on the session, asked
  -- right after the turn, succeeds and tells as sending just the connections whose bytes_sent grew:
  -- the last counter in libwebrtc's answer is more than the one before it in the answer or, for the
  -- only one, than the counter of the last poll. A connection for which libwebrtc failed, or reported
  -- no sender, counts as it did before. Receiving is told likewise, and each pair of counters adds up
  -- to the connections. The answers are those libwebrtc gives in the worlds in which it is asked in
  -- that turn. The task runs, all intervals are a second at least, and the session has fewer than
  -- 2 ^ 31 connections.
  pub tick-get_stats-Tells :
      (elapsed : ℕ) (r : GetStatsRequest) (earlier later : List String) (x : Session) (s : System)
      → s.collector ≡ some elapsed
      → Each IsPolled s.server
      → lookup r.session_id s.server ≡ some x
      → session_ids s.server ≡ earlier ++ r.session_id ∷ later
      → elapsed % x.polling_state_s ≡ 0
      → length (entries x.peer_connections) < 2 ^ 31
      → (reply : WebrtcSessionStats) × ((get_stats r (step tick s).server).0
          ≡ ok (record { session = some reply }))
        × Tells (answers_in x (collect_each elapsed earlier s.server).1.world) reply
  unfolding get_stats
  tick-get_stats-Tells elapsed r earlier later x s running polled found order due few =
      let w = (collect_each elapsed earlier s.server).1.world in
      let visited : lookup r.session_id (step tick s).server ≡ some (export_in true w x) =
        rw (tick-server elapsed s running polled, order)
          (collect_each-visited elapsed r.session_id earlier later x s.server
            (subst Distinct order (entries-Distinct s.server.item.sessions)) polled found due) in
      (
        webrtc_session_stats (session_stats (export_in true w x) (step tick s).server.world).0,
        rw (visited, get_stats, call_session) refl,
        export-Tells x w (step tick s).server.world few,
      )
