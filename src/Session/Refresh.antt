-- ===== src/Session/Refresh.antt =====
-- src/session.rs: the connections of a session after its statistics have been exported with polling.
use load_test_server.Prelude.{
  ◌≡◌, ◌≢◌, refl, sym, ap, subst, ◌∙◌, inl, inr, ◌⊎◌, Bool, true, String, none, some, List, [], ◌∷◌,
  All, Distinct, map, Option-cases,
}
use load_test_server.Result.{Held}
use load_test_server.PeerConnection.{PeerConnectionManager}
use load_test_server.PeerConnection.Polling.{export_stats}
use load_test_server.PeerConnection.Polling.History.{
  poll_senders, poll_receivers, export_stats_success,
}
use load_test_server.Session.{Session, export_at, export_each}
use load_test_server.External.Types.{PeerConnectionStats}
use load_test_server.External.Platform.{Platform}

module _ ⦃P : Platform⦄ where
  open P use {World, Number, WebRtcError, by_name, webrtc_get_stats}
  open by_name use {get, entries, get-insert_self, get-insert_ne}

  abbrev pub Answer : Type 0
  Answer = WebRtcError ⊎ PeerConnectionStats Number

  -- a connection after it has been polled with an answer of libwebrtc
  abbrev pub polled : Answer → PeerConnectionManager → PeerConnectionManager
  polled (inl e) pc = pc
  polled (inr stats) pc =
      poll_senders stats.video_sender_stats (poll_receivers stats.video_receiver_stats pc)

  -- libwebrtc's answers for connections that are exported one after the other, each with the
  -- connection as it was before, from a world on
  abbrev pub answered :
      String
      → List (String × PeerConnectionManager)
      → World
      → List (String × (Answer × PeerConnectionManager))
  answered id [] w = []
  answered id ((k, pc) ∷ l) w =
      (k, ((webrtc_get_stats pc.webrtc_peer_connection w).0, pc))
      ∷ answered id l (export_stats id true (record { item = pc; world = w })).1.world

  abbrev pub refresh : String × (Answer × PeerConnectionManager) → String × PeerConnectionManager
  refresh e = (e.0, polled e.1.0 e.1.1)

  export_stats-polled :
      (id : String) (pc : PeerConnectionManager) (w : World) (a : Answer)
      → (webrtc_get_stats pc.webrtc_peer_connection w).0 ≡ a
      → (export_stats id true (record { item = pc; world = w })).1.item ≡ polled a pc
  unfolding export_stats
  export_stats-polled id pc w (inl e) given = rw (given, export_stats) refl
  export_stats-polled id pc w (inr stats) given =
      let later = (webrtc_get_stats pc.webrtc_peer_connection w).1 in
      ap (λ r. r.1.item)
        (export_stats_success id pc w later stats (ap (λ a. (a, later)) given) true)

  pub export_at_other :
      (poll : Bool) (j k : String) (s : Held Session World)
      → j ≢ k
      → get (export_at poll j s).item.peer_connections k ≡ get s.item.peer_connections k
  unfolding export_at
  export_at_other poll j k s other = elim (Option-cases (get s.item.peer_connections j)) [
    | inl missing ↦ rw (missing, export_at) refl
    | inr (pc, found) ↦ rw (found, export_at) (get-insert_ne s.item.peer_connections j k _ other)
  ]

  export_each_others :
      (ids : List String) (k : String) (s : Held Session World)
      → All (λ j. j ≢ k) ids
      → get (export_each true ids s).item.peer_connections k ≡ get s.item.peer_connections k
  unfolding export_each
  export_each_others [] k s h = refl
  export_each_others (j ∷ ids) k s h =
      export_each_others ids k (export_at true j s) h.1 ∙ export_at_other true j k s h.0

  -- an export at a connection that is there
  record Exports (k : String) (pc : PeerConnectionManager) (s t : Held Session World) : Type 0 where
    stored :
        get t.item.peer_connections k
        ≡ some (polled (webrtc_get_stats pc.webrtc_peer_connection s.world).0 pc)
    same_answers :
        (l : List (String × PeerConnectionManager))
        → answered t.item.id l t.world
          ≡ answered s.item.id l
              (export_stats s.item.id true (record { item = pc; world = s.world })).1.world

  export_at-Exports :
      (k : String) (pc : PeerConnectionManager) (s : Held Session World)
      → get s.item.peer_connections k ≡ some pc
      → Exports k pc s (export_at true k s)
  unfolding export_at
  export_at-Exports k pc s found =
      rw (found, export_at)
        (record {
          stored =
              get-insert_self s.item.peer_connections k _
              ∙ ap some (export_stats-polled s.item.id pc s.world _ refl);
          same_answers = λ l. refl;
        })

  pub still_there :
      (poll : Bool) (k : String) (s : Held Session World)
      (l : List (String × PeerConnectionManager))
      → All (λ j. j ≢ k) (map (λ e. e.0) l)
      → All (λ (e : String × PeerConnectionManager). get s.item.peer_connections e.0 ≡ some e.1) l
      → All
          (λ (e : String × PeerConnectionManager).
            get (export_at poll k s).item.peer_connections e.0 ≡ some e.1)
          l
  still_there poll k s [] others there = tt
  still_there poll k s (e ∷ l) others there = (
    export_at_other poll k e.0 s (λ q. others.0 (sym q)) ∙ there.0,
    still_there poll k s l others.1 there.1,
  )

  -- every connection of the list is refreshed with its answer
  pub export_each-refresh :
      (l : List (String × PeerConnectionManager)) (s : Held Session World)
      → Distinct (map (λ e. e.0) l)
      → All (λ (e : String × PeerConnectionManager). get s.item.peer_connections e.0 ≡ some e.1) l
      → All
          (λ (e : String × PeerConnectionManager).
            get (export_each true (map (λ e. e.0) l) s).item.peer_connections e.0 ≡ some e.1)
          (map refresh (answered s.item.id l s.world))
  unfolding export_each
  export_each-refresh [] s distinct there = tt
  export_each-refresh ((k, pc) ∷ l) s distinct there =
      let t = export_at true k s in
      let exports = export_at-Exports k pc s there.0 in
      (
        export_each_others (map (λ e. e.0) l) k t distinct.0 ∙ exports.stored,
        subst
            (λ es.
              All
                (λ (e : String × PeerConnectionManager).
                  get (export_each true (map (λ e. e.0) l) t).item.peer_connections e.0 ≡ some e.1)
                (map refresh es))
            (exports.same_answers l)
            (export_each-refresh l t distinct.1 (still_there true k s l distinct.0 there.1)),
      )

  export_at_missing :
      (j k : String) (s : Held Session World)
      → get s.item.peer_connections k ≡ none
      → get (export_at true j s).item.peer_connections k ≡ none
  unfolding export_at
  export_at_missing j k s absent = elim (Option-cases (get s.item.peer_connections j)) [
    | inl missing ↦ rw (missing, export_at) absent
    | inr (pc, found) ↦
        rw (found, export_at)
          (get-insert_ne s.item.peer_connections j k _
              (λ e. cc (ap (λ i. get s.item.peer_connections i) e, found, absent))
            ∙ absent)
  ]

  pub export_each_missing :
      (ids : List String) (k : String) (s : Held Session World)
      → get s.item.peer_connections k ≡ none
      → get (export_each true ids s).item.peer_connections k ≡ none
  unfolding export_each
  export_each_missing [] k s absent = absent
  export_each_missing (j ∷ ids) k s absent =
      export_each_missing ids k (export_at true j s) (export_at_missing j k s absent)
