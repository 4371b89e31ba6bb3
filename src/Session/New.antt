-- ===== src/Session/New.antt =====
-- src/session.rs: new sessions.
use load_test_server.Prelude.{ℕ, ◌≡◌, String, none, arith}
use load_test_server.Result.{ok}
use load_test_server.Log
use load_test_server.Log.{LogLevel}
use load_test_server.WebrtcPool
use load_test_server.PeerConnection.Media.{file_video_source}
use load_test_server.Session.{Session, created, new}
use load_test_server.External.Platform.{Platform}

module _ ⦃P : Platform⦄ where
  open P use {World, by_name, num_cpus}
  open by_name use {empty}

  -- what the request asks for, not started, without connections, and with a pool of its own that was
  -- made with as many factories as there are processors
  pub record IsNew (id name : String) (polling_state_s : ℕ) (level : LogLevel) (x : Session)
      : Type 0 where
    pub same_id : x.id ≡ id
    pub same_name : x.name ≡ name
    pub same_polling : x.polling_state_s ≡ polling_state_s
    pub same_level : x.log_level ≡ level
    pub is_created : x.state ≡ created
    pub no_start : x.start_time ≡ none
    pub no_stop : x.stop_time ≡ none
    pub no_connections : x.peer_connections ≡ empty
    pub pool_made : (w : World) × ((WebrtcPool.new (num_cpus w) w).0 ≡ ok x.webrtc_pool)

  pub new-IsNew :
      (id name : String) (polling_state_s : ℕ) (level : LogLevel) (w : World) (x : Session)
      → (new id name polling_state_s level w).0 ≡ ok x
      → IsNew id name polling_state_s level x
  unfolding new
  new-IsNew id name polling_state_s level w x h =
      let w' = (file_video_source (Log.set_log_level level w)).1 in
      record {
        same_id = ground arith;
        same_name = ground arith;
        same_polling = ground arith;
        same_level = ground arith;
        is_created = ground arith;
        no_start = ground arith;
        no_stop = ground arith;
        no_connections = ground arith;
        pool_made = (w', ground arith);
      }
