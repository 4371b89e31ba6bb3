-- ===== src/Session/Made.antt =====
-- src/session.rs, src/webrtc_pool.rs, src/peer_connection.rs: what is made when libwebrtc does not fail.
use load_test_server.Prelude.{ℕ, zero, suc, String}
use load_test_server.Result.{map_err}
use load_test_server.Result.Succeeds.{
  Succeeds, succeeds_rules, Succeeds-pure, Succeeds-bind, Succeeds-map_err, Succeeds-unwrap_call,
}
use load_test_server.Error.{server_error_from}
use load_test_server.Log.{LogLevel}
use load_test_server.WebrtcPool.{WebrtcPool, WebrtcPoolItem, new_item, new_items, fill}
use load_test_server.WebrtcPool
use load_test_server.PeerConnection
use load_test_server.PeerConnection.Media.{file_video_source}
use load_test_server.Session
use load_test_server.Session.{Session}
use load_test_server.External.Reliable.{Reliable}
use load_test_server.External.Platform.{Platform}

module _ ⦃P : Platform⦄ where
  open P use {
    VideoEncoderPoolTx, VideoEncoderPool, PeerConnectionFactory, video_encoder_pool_create, by_id,
  }
  open by_id use {Map, insert}

  module _ (reliable : Reliable) where
    pub file_video_source-Succeeds : Succeeds file_video_source
    unfolding file_video_source
    file_video_source-Succeeds =
        search
          (
            succeeds_rules, Succeeds-unwrap_call, reliable.producer_made, reliable.producer_started,
            reliable.frame_received, reliable.frame_pushed,
          )
          depth 12

    pub new_item-Succeeds : (tx : VideoEncoderPoolTx) (id : ℕ) → Succeeds (new_item tx id)
    unfolding new_item
    new_item-Succeeds tx id =
        search (succeeds_rules, reliable.encoder_created, reliable.factory_created)

    pub new_items-Succeeds :
        (tx : VideoEncoderPoolTx) (rounds id : ℕ) (m : Map WebrtcPoolItem)
        → Succeeds (new_items tx rounds id m)
    unfolding new_items
    new_items-Succeeds tx zero id m = Succeeds-pure m
    new_items-Succeeds tx (suc rounds) id m =
        Succeeds-bind (new_item tx id) (λ item. new_items tx rounds (suc id) (insert m id item))
          (new_item-Succeeds tx id)
          (λ item. new_items-Succeeds tx rounds (suc id) (insert m id item))

    pub fill-Succeeds :
        (n : ℕ) (created : VideoEncoderPool × VideoEncoderPoolTx) → Succeeds (fill n created)
    unfolding fill
    fill-Succeeds n (pool, tx) = search (succeeds_rules, new_items-Succeeds)

    pub pool-Succeeds : (n : ℕ) → Succeeds (WebrtcPool.new n)
    unfolding WebrtcPool.new
    pool-Succeeds n =
        Succeeds-bind (map_err server_error_from video_encoder_pool_create) (fill n)
          (Succeeds-map_err server_error_from video_encoder_pool_create reliable.pool_created)
          (fill-Succeeds n)

    pub session-Succeeds :
        (id name : String) (polling_state_s : ℕ) (level : LogLevel)
        → Succeeds (Session.new id name polling_state_s level)
    unfolding Session.new
    session-Succeeds id name polling_state_s level =
        search (succeeds_rules, file_video_source-Succeeds, pool-Succeeds) depth 12

    pub connection-Succeeds :
        (f : PeerConnectionFactory) (pool_id : ℕ) (id name : String)
        → Succeeds (PeerConnection.new f pool_id id name)
    unfolding PeerConnection.new
    connection-Succeeds f pool_id id name =
        search (succeeds_rules, reliable.connection_made) depth 12
