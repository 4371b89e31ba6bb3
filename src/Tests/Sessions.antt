-- ===== src/Tests/Sessions.antt =====
-- Concrete sessions and peer connections.
use text.Mathlib.TextEquality.{eq_iff}
use load_test_server.Prelude.{
  ℕ, ◌+◌, ◌-◌, ◌/◌, ◌≡◌, refl, true, String, none, some, List, [], ◌∷◌, ◌++◌, length, arith, ltb,
  if◌then◌else◌,
}
use load_test_server.Result.{Held, ok}
use load_test_server.Helpers.{nanos_per_sec}
use load_test_server.Log.{LogLevel}
use load_test_server.Metrics.{send_all}
use load_test_server.WebrtcPool.{WebrtcPool}
use load_test_server.PeerConnection.{
  PeerConnectionManager, VideoSendState, VideoReceiveState, sending, not_sending, not_receiving,
}
use load_test_server.PeerConnection.Polling.{
  set_send_state, set_receive_state, export_receivers, export_senders, export_lists, export_stats,
}
use load_test_server.PeerConnection.Polling.History.{
  poll_senders, poll_receivers, all_rx_gauges, all_tx_gauges, poll_senders-last_two,
  poll_receivers-last_two, idle_pair_sending, export_stats_success,
}
use load_test_server.Session.{
  Session, SessionState, created, started, peer_connection_states, start, stop, elapsed_time,
}
use load_test_server.Session.Lifecycle.{
  Op, starts, stops, call_op, Ends, call_op-Ends, elapsed_after,
}
use load_test_server.Session.Order.{peer_connection_states-same}
use load_test_server.Session.Tally.{senders, receivers, peer_connection_states_exact}
use load_test_server.External.Types.{PeerConnectionStats}
use load_test_server.Tests.{toy, receiver_stats, sender_stats, stats_of}
open toy use {by_name, now}
open by_name use {get, entries}

abbrev pub connection : String → VideoSendState → VideoReceiveState → PeerConnectionManager
connection id send receive = record {
  id = id;
  name = "connection";
  webrtc_peer_connection = 7;
  pool_id = 0;
  state = record { video_send = send; video_receive = receive };
  connection_state_rx = some 100;
  ice_candidates_rx = some 100;
  video_track_rx = some 100;
}

abbrev pub pool : WebrtcPool
pool = record {
  factory_count = 1;
  factory_list = (0, record { id = 0; factory = 0; peer_connection_factory = 0; count = 2 }) ∷ [];
  video_encoder_pool = 0;
}

-- a session with two connections
abbrev pub session : ℕ → SessionState → Session
session polling_state_s state = record {
  id = "a";
  name = "A";
  peer_connections =
      ("p", connection "p" (sending 5) (not_receiving 0))
      ∷ ("q", connection "q" (not_sending 0) (not_receiving 3))
      ∷ [];
  video_source = 0;
  polling_state_s = polling_state_s;
  log_level = LogLevel.error;
  state = state;
  start_time = none;
  stop_time = none;
  webrtc_pool = pool;
  frame_producer = 0;
}

abbrev fresh : Held Session ℕ
fresh = record { item = session 2 created; world = 5 }

call_op-Ends_example : Ends starts (some started) fresh (call_op starts fresh)
call_op-Ends_example = call_op-Ends starts fresh

abbrev calls : List Op
calls = stops ∷ starts ∷ starts ∷ stops ∷ starts ∷ []

elapsed_after_example :
    let s1 = (start fresh).1 in
    let s2 = (stop s1).1 in
    let started_at = (now fresh.world).0 in
    let stopped_at = (now s1.world).0 in
    let seconds = λ (later : ℕ).
      if ltb later started_at then none else some ((later - started_at) / nanos_per_sec) in
    (elapsed_time fresh.item 9 ≡ (none, 9))
    × (elapsed_time s1.item 9 ≡ (seconds (now 9).0, (now 9).1))
    × (elapsed_time s2.item 9 ≡ (seconds stopped_at, 9))
elapsed_after_example = elapsed_after fresh 9 refl

peer_connection_states_exact_example :
    let t = peer_connection_states fresh.item in
    let l = entries fresh.item.peer_connections in
    (t.num_sending ≡ senders l)
    × (t.num_sending + t.num_not_sending ≡ length l)
    × (t.num_receiving ≡ receivers l)
    × (t.num_receiving + t.num_not_receiving ≡ length l)
peer_connection_states_exact_example = peer_connection_states_exact fresh.item (omega arith)

abbrev silent : PeerConnectionManager
silent = connection "p" (not_sending 0) (not_receiving 0)

poll_senders-last_two_example :
    let pc = poll_senders (sender_stats 9 ∷ sender_stats 3 ∷ sender_stats 4 ∷ []) silent in
    (pc.state.video_send ≡ sending 4) × (pc.state.video_receive ≡ not_receiving 0)
poll_senders-last_two_example =
    poll_senders-last_two (sender_stats 9 ∷ []) (sender_stats 3) (sender_stats 4) silent

poll_receivers-last_two_example :
    let pc = poll_receivers (receiver_stats 4 ∷ receiver_stats 4 ∷ []) silent in
    (pc.state.video_receive ≡ not_receiving 4) × (pc.state.video_send ≡ not_sending 0)
poll_receivers-last_two_example =
    poll_receivers-last_two [] (receiver_stats 4) (receiver_stats 4) silent

-- a connection with two senders, which libwebrtc reports the same twice
abbrev paired : Held PeerConnectionManager ℕ
paired = record { item = record silent { webrtc_peer_connection = 8 }; world = 5 }

still_paired : (export_stats "a" true paired).1.item.webrtc_peer_connection ≡ 8
unfolding export_stats export_lists export_receivers export_senders set_send_state set_receive_state
still_paired = refl

idle_pair_sending_example :
    let t = (export_stats "a" true paired).1 in
    (t.item.state.video_send ≡ sending 8)
    × ((export_stats "a" true t).1.item.state.video_send ≡ sending 8)
idle_pair_sending_example =
    let t = (export_stats "a" true paired).1 in
    idle_pair_sending "a" paired 6 (t.world + 1) (stats_of 8) (sender_stats 3) (sender_stats 8) refl
      (rw still_paired refl) refl (omega arith)

abbrev stats : PeerConnectionStats ℕ
stats = record {
  video_receiver_stats = receiver_stats 10 ∷ [];
  video_sender_stats = sender_stats 10 ∷ [];
}

export_stats_success_example : export_stats "a" true (record { item = silent; world = 5 }) ≡ (
  ok tt,
  record {
    item = poll_senders stats.video_sender_stats (poll_receivers stats.video_receiver_stats silent);
    world =
        send_all
          (all_rx_gauges "p" "a" stats.video_receiver_stats
            ++ all_tx_gauges "p" "a" stats.video_sender_stats)
          6;
  },
)
export_stats_success_example = export_stats_success "a" silent 5 6 stats refl true

-- the same two connections, the other one first
abbrev turned_around : Session
turned_around = record (session 2 created) {
  peer_connections =
      ("q", connection "q" (not_sending 0) (not_receiving 3))
      ∷ ("p", connection "p" (sending 5) (not_receiving 0))
      ∷ [];
}

same_connections :
    (k : String) → get (session 2 created).peer_connections k ≡ get turned_around.peer_connections k
same_connections k = ground (arith, eq_iff "p" k, eq_iff "q" k, eq_iff "p" "q")

peer_connection_states-same_example :
    peer_connection_states (session 2 created) ≡ peer_connection_states turned_around
peer_connection_states-same_example =
    peer_connection_states-same (session 2 created) turned_around same_connections
