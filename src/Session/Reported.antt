-- ===== src/Session/Reported.antt =====
-- src/session.rs, src/peer_connection.rs: the tally after the statistics have been exported and polled.
use mathlib.Core.Option.{some-injective}
use load_test_server.Prelude.{
  ℕ, ◌+◌, ◌^◌, ◌<◌, ◌≡◌, refl, sym, ap, subst, ◌∙◌, inl, inr, Bool, true, String, some, List, [],
  ◌∷◌, Memᴰ, All, All-mem, Distinct, map, length, ltb, arith, Option-cases,
}
use load_test_server.Result.{Held}
use load_test_server.PeerConnection.{PeerConnectionManager, last_bytes_sent, last_bytes_received}
use load_test_server.PeerConnection.Polling.{set_send_state, set_receive_state}
use load_test_server.PeerConnection.Polling.History.{poll_senders, poll_receivers}
use load_test_server.Session.{
  Session, default, tally, peer_connection_states, export_each, export_peer_connection_stats,
}
use load_test_server.Session.Order.{tally-entries}
use load_test_server.Session.Tally.{senders, receivers, tally-Counts, sends, receives, one_if}
use load_test_server.Session.Refresh.{
  Answer, polled, answered, refresh, export_each-refresh, export_each_missing,
}
use load_test_server.External.Types.{VideoSenderStats, VideoReceiverStats}
use load_test_server.External.Platform.{Platform}

-- whether the last of the counters is more than the one before it, given the last counter before them
-- and the outcome then
abbrev pub increased : ℕ → Bool → List ℕ → Bool
increased last outcome [] = outcome
increased last outcome (bytes ∷ rest) = increased bytes (ltb last bytes) rest

module _ ⦃P : Platform⦄ where
  open P use {World, Number, by_name, webrtc_get_stats}
  open by_name use {Map, get, entries, mem-entries, entries-Distinct, get_of_entries}

  abbrev pub count :
      (Answer → PeerConnectionManager → Bool) → List (String × (Answer × PeerConnectionManager)) → ℕ
  count q [] = 0
  count q ((_, (a, pc)) ∷ rest) = one_if (q a pc) + count q rest

  abbrev sent : List (VideoSenderStats Number) → List ℕ
  sent stats = map (λ s. s.bytes_sent) stats

  abbrev received : List (VideoReceiverStats Number) → List ℕ
  received stats = map (λ s. s.bytes_received) stats

  -- more bytes than at the last poll; without an answer, or without a sender or receiver in it, as it was
  abbrev pub sent_more : Answer → PeerConnectionManager → Bool
  sent_more (inl e) pc = sends pc.state.video_send
  sent_more (inr stats) pc =
      increased (last_bytes_sent pc.state.video_send) (sends pc.state.video_send)
        (sent stats.video_sender_stats)

  abbrev pub received_more : Answer → PeerConnectionManager → Bool
  received_more (inl e) pc = receives pc.state.video_receive
  received_more (inr stats) pc =
      increased (last_bytes_received pc.state.video_receive) (receives pc.state.video_receive)
        (received stats.video_receiver_stats)

  poll_senders-sends :
      (stats : List (VideoSenderStats Number)) (pc : PeerConnectionManager)
      → let pc' = poll_senders stats pc in
        (sends pc'.state.video_send
          ≡ increased
              (last_bytes_sent pc.state.video_send)
              (sends pc.state.video_send)
              (sent stats))
        × (pc'.state.video_receive ≡ pc.state.video_receive)
  unfolding set_send_state
  poll_senders-sends [] pc = (refl, refl)
  poll_senders-sends (s ∷ stats) pc =
      let (e, same) = poll_senders-sends stats (set_send_state s pc) in (ground (arith, e), same)

  poll_receivers-receives :
      (stats : List (VideoReceiverStats Number)) (pc : PeerConnectionManager)
      → let pc' = poll_receivers stats pc in
        (receives pc'.state.video_receive
          ≡ increased
              (last_bytes_received pc.state.video_receive)
              (receives pc.state.video_receive)
              (received stats))
        × (pc'.state.video_send ≡ pc.state.video_send)
  unfolding set_receive_state
  poll_receivers-receives [] pc = (refl, refl)
  poll_receivers-receives (s ∷ stats) pc =
      let (e, same) = poll_receivers-receives stats (set_receive_state s pc) in
      (ground (arith, e), same)

  polled-more :
      (a : Answer) (pc : PeerConnectionManager)
      → (sends (polled a pc).state.video_send ≡ sent_more a pc)
        × (receives (polled a pc).state.video_receive ≡ received_more a pc)
  polled-more (inl e) pc = (refl, refl)
  polled-more (inr stats) pc =
      let (receiving, same_send) = poll_receivers-receives stats.video_receiver_stats pc in
      let (sending, same_receive) =
        poll_senders-sends stats.video_sender_stats
          (poll_receivers stats.video_receiver_stats pc) in
      (
        sending
            ∙ ap (λ v. increased (last_bytes_sent v) (sends v) (sent stats.video_sender_stats))
                same_send,
        ap receives same_receive ∙ receiving,
      )

  refreshed_counts :
      (l : List (String × (Answer × PeerConnectionManager)))
      → (senders (map refresh l) ≡ count sent_more l)
        × (receivers (map refresh l) ≡ count received_more l)
  refreshed_counts [] = (refl, refl)
  refreshed_counts ((k, (a, pc)) ∷ l) =
      let (sending, receiving) = polled-more a pc in
      let (all_sending, all_receiving) = refreshed_counts l in
      (
        omega (arith, ap one_if sending, all_sending),
        omega (arith, ap one_if receiving, all_receiving),
      )

  keys-refresh :
      (id : String) (l : List (String × PeerConnectionManager)) (w : World)
      → map (λ e. e.0) (map refresh (answered id l w)) ≡ map (λ e. e.0) l
  keys-refresh id [] w = refl
  keys-refresh id (e ∷ l) w = ap (λ ks. e.0 ∷ ks) (keys-refresh id l _)

  length-refresh :
      (id : String) (l : List (String × PeerConnectionManager)) (w : World)
      → length (map refresh (answered id l w)) ≡ length l
  length-refresh id [] w = refl
  length-refresh id (e ∷ l) w = omega (arith, length-refresh id l _)

  mem-keys :
      (k : String) (pc : PeerConnectionManager) (l : List (String × PeerConnectionManager))
      → Memᴰ (k, pc) l
      → Memᴰ k (map (λ e. e.0) l)
  mem-keys k pc [] m = elim m [ ]
  mem-keys k pc (e ∷ l) (Memᴰ.head same) =
      Memᴰ.head (ap (λ (d : String × PeerConnectionManager). d.0) same)
  mem-keys k pc (e ∷ l) (Memᴰ.tail m) = Memᴰ.tail (mem-keys k pc l m)

  keys-mem :
      (k : String) (l : List (String × PeerConnectionManager))
      → Memᴰ k (map (λ e. e.0) l)
      → (pc : PeerConnectionManager) × Memᴰ (k, pc) l
  keys-mem k [] m = elim m [ ]
  keys-mem k (e ∷ l) (Memᴰ.head same) = (e.1, Memᴰ.head (ap (λ (j : String). (j, e.1)) same))
  keys-mem k (e ∷ l) (Memᴰ.tail m) = let (pc, m') = keys-mem k l m in (pc, Memᴰ.tail m')

  module _ (s : Held Session World) where
    abbrev before : List (String × PeerConnectionManager)
    before = entries s.item.peer_connections

    abbrev answers : List (String × (Answer × PeerConnectionManager))
    answers = answered s.item.id before s.world

    abbrev after : Map PeerConnectionManager
    after = (export_each true (map (λ e. e.0) before) s).item.peer_connections

    refresh-stored :
        All (λ (e : String × PeerConnectionManager). get after e.0 ≡ some e.1) (map refresh answers)
    refresh-stored =
        export_each-refresh before s (entries-Distinct s.item.peer_connections)
          (get_of_entries s.item.peer_connections)

    stored-refresh :
        (k : String) (pc : PeerConnectionManager)
        → get after k ≡ some pc
        → Memᴰ (k, pc) (map refresh answers)
    stored-refresh k pc found = elim (Option-cases (get s.item.peer_connections k)) [
      | inl missing ↦ absurd (cc (export_each_missing (map (λ e. e.0) before) k s missing, found))
      | inr (old, present) ↦
          let keyed : Memᴰ k (map (λ e. e.0) (map refresh answers)) =
            subst (Memᴰ k) (sym (keys-refresh s.item.id before s.world))
              (mem-keys k old before (mem-entries s.item.peer_connections k old present)) in
          let (new, there) = keys-mem k (map refresh answers) keyed in
          subst (λ v. Memᴰ (k, v) (map refresh answers))
            (some-injective _ _ (
              sym (
                All-mem (λ (e : String × PeerConnectionManager). get after e.0 ≡ some e.1) there
                  refresh-stored)
              ∙ found))
            there
    ]

    tally-refresh : tally default (map refresh answers) ≡ tally default (entries after)
    tally-refresh =
        tally-entries after (map refresh answers)
          (subst Distinct (sym (keys-refresh s.item.id before s.world))
            (entries-Distinct s.item.peer_connections))
          (λ e m.
            All-mem (λ (d : String × PeerConnectionManager). get after d.0 ≡ some d.1) m
              refresh-stored)
          stored-refresh default

  -- After an export that polls a session of fewer than 2 ^ 31 connections, the tally counts as sending
  -- just the connections whose bytes sent grew, by libwebrtc's answers in the worlds in which it was
  -- asked; likewise for receiving; and each pair of counters adds up to the connections.
  pub peer_connection_states-export :
      (s : Held Session World)
      → length (entries s.item.peer_connections) < 2 ^ 31
      → let t = peer_connection_states (export_peer_connection_stats true s).item in
        let l = answered s.item.id (entries s.item.peer_connections) s.world in
        let n = length (entries s.item.peer_connections) in
        (t.num_sending ≡ count sent_more l)
        × (t.num_sending + t.num_not_sending ≡ n)
        × (t.num_receiving ≡ count received_more l)
        × (t.num_receiving + t.num_not_receiving ≡ n)
  unfolding peer_connection_states export_peer_connection_stats
  peer_connection_states-export s few =
      let l = map refresh (answers s) in
      let size = length-refresh s.item.id (before s) s.world in
      let exact = tally-Counts default l (omega (arith, size)) (omega (arith, size)) in
      rw (← tally-refresh s) (omega (arith, exact, refreshed_counts (answers s), size))
