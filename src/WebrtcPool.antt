-- ===== src/WebrtcPool.antt =====
-- src/webrtc_pool.rs: the factories of peer connections, each with a count of what it has made.
-- The call that picks a factory is in the child Create, which needs PeerConnection.
pub mod Create
pub mod Fresh
pub mod Balance
pub mod Spread
pub mod Total
pub mod Concurrent
use load_test_server.Prelude.{ℕ, zero, suc, ◌%◌, ◌^◌}
use load_test_server.Result.{Exec, pure, call, map_err, ◌>>=◌}
use load_test_server.Error.{ServerError, server_error_from}
use load_test_server.External.Platform.{Platform}

module _ ⦃P : Platform⦄ where
  open P use {
    World, by_id, VideoEncoderPool, VideoEncoderPoolTx, video_encoder_pool_create, Factory,
    factory_new, reactive_video_encoder_create, PeerConnectionFactory, create_factory_with_config,
  }
  open by_id use {Map, empty, insert}

  pub record WebrtcPoolItem : Type 0 where
    pub id : ℕ  -- u32
    pub factory : Factory
    pub peer_connection_factory : PeerConnectionFactory
    pub count : ℕ  -- AtomicUsize

  pub record WebrtcPool : Type 0 where
    pub factory_count : ℕ  -- usize
    pub factory_list : Map WebrtcPoolItem
    pub video_encoder_pool : VideoEncoderPool

  -- one round of the loop in `new`
  unfoldable pub new_item : VideoEncoderPoolTx → ℕ → Exec World ServerError WebrtcPoolItem
  unfolding server_error_from
  new_item tx id = do
    factory ← call factory_new
    reactive_video_encoder ← map_err server_error_from (reactive_video_encoder_create tx)
    peer_connection_factory ←
        map_err server_error_from (create_factory_with_config factory reactive_video_encoder)
    pure (record {
      id = id;
      factory = factory;
      peer_connection_factory = peer_connection_factory;
      count = 0;
    })

  -- `for id in 0..n`, with the rounds that are left and the next id
  unfoldable pub new_items :
      VideoEncoderPoolTx → ℕ → ℕ → Map WebrtcPoolItem → Exec World ServerError (Map WebrtcPoolItem)
  new_items tx zero id factory_list = pure factory_list
  new_items tx (suc rounds) id factory_list = do
    item ← new_item tx id
    new_items tx rounds (suc id) (insert factory_list id item)

  unfoldable pub fill :
      ℕ → VideoEncoderPool × VideoEncoderPoolTx → Exec World ServerError WebrtcPool
  fill factory_count (video_encoder_pool, video_encoder_pool_tx) = do
    factory_list ← new_items video_encoder_pool_tx (factory_count % 2 ^ 32) 0 empty
    pure (record {
      factory_count = factory_count;
      factory_list = factory_list;
      video_encoder_pool = video_encoder_pool;
    })

  unfoldable pub new : ℕ → Exec World ServerError WebrtcPool
  new factory_count = do
    created ← map_err server_error_from video_encoder_pool_create
    fill factory_count created
