-- ===== src/PeerConnection/New.antt =====
-- src/peer_connection.rs: new peer connections.
use load_test_server.Prelude.{ℕ, String, ◌≡◌, true, is_some, arith}
use load_test_server.Result.{ok}
use load_test_server.PeerConnection.{PeerConnectionManager, not_sending, not_receiving, new}
use load_test_server.External.Platform.{Platform}

module _ ⦃P : Platform⦄ where
  open P use {World, PeerConnectionFactory}

  -- under its id and the factory's, silent in both directions, with all receivers in place
  pub record IsNew (id : String) (pool_id : ℕ) (pc : PeerConnectionManager) : Type 0 where
    pub same_id : pc.id ≡ id
    pub same_pool_id : pc.pool_id ≡ pool_id
    pub silent_send : pc.state.video_send ≡ not_sending 0
    pub silent_receive : pc.state.video_receive ≡ not_receiving 0
    pub has_connection_state_rx : is_some pc.connection_state_rx ≡ true
    pub has_ice_candidates_rx : is_some pc.ice_candidates_rx ≡ true
    pub has_video_track_rx : is_some pc.video_track_rx ≡ true

  pub new-IsNew :
      (factory : PeerConnectionFactory) (pool_id : ℕ) (id name : String) (w : World)
      (pc : PeerConnectionManager)
      → (new factory pool_id id name w).0 ≡ ok pc
      → IsNew id pool_id pc
  unfolding new
  new-IsNew factory pool_id id name w pc h = ground arith
