-- ===== src/UnitTests/Ready.antt =====
-- src/peer_connection.rs, src/session.rs: what the unit tests start from.
use load_test_server.Prelude.{◌≡◌, refl, ap, String, Option, none, some, arith, true, is_some}
use load_test_server.Result.{call, pure, unwrap, ◌>>=◌}
use load_test_server.Result.Ends.{
  Ends, Ends-pure, Ends-call, Ends-weaken, Ends-bind, Ends-unwrap, Succeeds-Ends,
}
use load_test_server.Error.{ServerError}
use load_test_server.WebrtcPool
use load_test_server.WebrtcPool.{WebrtcPool, WebrtcPoolItem}
use load_test_server.WebrtcPool.Fresh.{IsUnused, new_pool}
use load_test_server.PeerConnection
use load_test_server.PeerConnection.{PeerConnectionManager, not_sending}
use load_test_server.PeerConnection.New.{new-IsNew}
use load_test_server.Session.Made.{pool-Succeeds, connection-Succeeds}
use load_test_server.UnitTests.Connections.{peer_connection_params, new_peer_connection, Source}
use load_test_server.External.Reliable.{Reliable}
use load_test_server.External.Platform.{Platform}

module _ ⦃P : Platform⦄ where
  open P use {World, by_id, nanoid, video_track_source_create}
  open by_id use {get}

  -- a pool with a factory 0
  pub record HasFactory (pool : WebrtcPool) : Type 0 where
    pub item : WebrtcPoolItem
    pub found : get pool.factory_list 0 ≡ some item

  -- a connection of that factory that has sent nothing
  pub record IsReady (made : PeerConnectionManager × WebrtcPool × Source) : Type 0 where
    pub has_factory : HasFactory made.1
    pub same_pool_id : made.0.pool_id ≡ 0
    pub silent : made.0.state.video_send ≡ not_sending 0

  pub IsReady-factory :
      (made : PeerConnectionManager × WebrtcPool × Source)
      → IsReady made
      → is_some (get made.1.factory_list made.0.pool_id) ≡ true
  IsReady-factory made ready = rw (ready.same_pool_id) (rw ready.has_factory.found refl)

  used-factory :
      (pool : WebrtcPool) (o : Option WebrtcPoolItem)
      → get pool.factory_list 0 ≡ o
      → IsUnused 0 o
      → HasFactory pool
  used-factory pool none e u = absurd u
  used-factory pool (some item) e u = record { item = item; found = e }

  module _ (reliable : Reliable) where
    pool-HasFactory : (w : World) → Ends (WebrtcPool.new 1) w (λ pool t. HasFactory pool)
    pool-HasFactory w =
        Ends-weaken (WebrtcPool.new 1) w
          (Succeeds-Ends (WebrtcPool.new 1) w (pool-Succeeds reliable 1))
          (λ pool t e.
            let (count, fresh, even) = new_pool 1 w pool (ap (λ r. r.0) e) in
            used-factory pool (get pool.factory_list 0) refl (fresh.unused 0 (omega arith)))

    params-HasFactory : (w : World) → Ends peer_connection_params w (λ made t. HasFactory made.0)
    unfolding peer_connection_params
    params-HasFactory w =
        Ends-bind (unwrap (WebrtcPool.new 1))
          (λ pool. call video_track_source_create >>= λ source. pure (pool, source)) w
          (Ends-unwrap (WebrtcPool.new 1) w (pool-HasFactory w))
          (λ pool t there. record {
            result = (pool, (video_track_source_create t).0);
            after = (video_track_source_create t).1;
            runs = refl;
            holds = there;
          })

    made-IsReady :
        (pool : WebrtcPool) (source : Source) (item : WebrtcPoolItem) (id : String) (w : World)
        → get pool.factory_list 0 ≡ some item
        → Ends
            (unwrap {F = ServerError} (PeerConnection.new item.peer_connection_factory 0 id "new")
              >>= λ pc. pure (pc, pool, source))
            w
            (λ made t. IsReady made)
    made-IsReady pool source item id w found =
        let new = PeerConnection.new item.peer_connection_factory 0 id "new" in
        Ends-bind (unwrap new) (λ pc. pure (pc, pool, source)) w
          (Ends-unwrap new w (
            Succeeds-Ends new w
              (connection-Succeeds reliable item.peer_connection_factory 0 id "new")))
          (λ pc t e.
            let is_new = new-IsNew item.peer_connection_factory 0 id "new" w pc (ap (λ r. r.0) e) in
            Ends-pure (pc, pool, source) t
              (record {
                has_factory = record { item = item; found = found };
                same_pool_id = is_new.same_pool_id;
                silent = is_new.silent_send;
              }))

    pub new_peer_connection-IsReady :
        (w : World) → Ends new_peer_connection w (λ made t. IsReady made)
    unfolding new_peer_connection
    new_peer_connection-IsReady w =
        Ends-bind peer_connection_params _ w (params-HasFactory w) (λ made t there. rw there.found (
          Ends-bind (call nanoid) _ t (Ends-call {Q = λ id v. Unit} nanoid t tt)
            (λ id v _. made-IsReady made.0 made.1 there.item id v there.found)))
