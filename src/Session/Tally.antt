-- ===== src/Session/Tally.antt =====
-- src/session.rs: the tally of the peer connections by what they send and receive.
use load_test_server.Prelude.{
  ℕ, ◌+◌, ◌^◌, ◌<◌, ◌≡◌, Bool, true, false, String, List, [], ◌∷◌, length, arith,
}
use load_test_server.PeerConnection.{
  PeerConnectionManager, VideoSendState, sending, not_sending, VideoReceiveState, receiving,
  not_receiving,
}
use load_test_server.Session.{
  Session, PeerConnectionState, default, tally_one, tally, peer_connection_states,
}
use load_test_server.External.Platform.{Platform}

abbrev pub sends : VideoSendState → Bool
sends (sending _) = true
sends (not_sending _) = false

abbrev pub receives : VideoReceiveState → Bool
receives (receiving _) = true
receives (not_receiving _) = false

abbrev pub one_if : Bool → ℕ
one_if true = 1
one_if false = 0

module _ ⦃P : Platform⦄ where
  open P use {by_name}
  open by_name use {entries}

  -- the connections that are sending, and those that are receiving
  abbrev pub senders : List (String × PeerConnectionManager) → ℕ
  senders [] = 0
  senders ((_, pc) ∷ rest) = one_if (sends pc.state.video_send) + senders rest

  abbrev pub receivers : List (String × PeerConnectionManager) → ℕ
  receivers [] = 0
  receivers ((_, pc) ∷ rest) = one_if (receives pc.state.video_receive) + receivers rest

  -- the four counters against the connections that a tally has gone through
  abbrev pub Counts :
      PeerConnectionState → List (String × PeerConnectionManager) → PeerConnectionState → Type 0
  Counts t l t' =
      (t'.num_sending ≡ t.num_sending + senders l)
      × (t'.num_sending + t'.num_not_sending ≡ t.num_sending + t.num_not_sending + length l)
      × (t'.num_receiving ≡ t.num_receiving + receivers l)
      × (t'.num_receiving + t'.num_not_receiving ≡ t.num_receiving + t.num_not_receiving + length l)

  tally_one-Counts :
      (name : String) (pc : PeerConnectionManager) (t : PeerConnectionState)
      → t.num_sending + t.num_not_sending < 2 ^ 31
      → t.num_receiving + t.num_not_receiving < 2 ^ 31
      → Counts t ((name, pc) ∷ []) (tally_one pc t)
  unfolding tally_one
  tally_one-Counts name pc t hs hr = ground arith

  pub tally-Counts :
      (t : PeerConnectionState) (l : List (String × PeerConnectionManager))
      → t.num_sending + t.num_not_sending + length l < 2 ^ 31
      → t.num_receiving + t.num_not_receiving + length l < 2 ^ 31
      → Counts t l (tally t l)
  unfolding tally
  tally-Counts t [] hs hr = omega arith
  tally-Counts t ((name, pc) ∷ rest) hs hr =
      let one = tally_one-Counts name pc t (omega arith) (omega arith) in
      let later = tally-Counts (tally_one pc t) rest (omega (arith, one)) (omega (arith, one)) in
      omega (arith, one, later)

  -- With fewer than 2 ^ 31 connections the tally is exact and no counter leaves the range of an i32:
  -- num_sending counts the connections whose last poll found them sending, num_receiving those found
  -- receiving, and each of the two pairs of counters adds up to the number of connections.
  pub peer_connection_states_exact :
      (session : Session)
      → length (entries session.peer_connections) < 2 ^ 31
      → let t = peer_connection_states session in
        let l = entries session.peer_connections in
        (t.num_sending ≡ senders l)
        × (t.num_sending + t.num_not_sending ≡ length l)
        × (t.num_receiving ≡ receivers l)
        × (t.num_receiving + t.num_not_receiving ≡ length l)
  unfolding peer_connection_states
  peer_connection_states_exact session h =
      omega
        (arith, tally-Counts default (entries session.peer_connections) (omega arith) (omega arith))
