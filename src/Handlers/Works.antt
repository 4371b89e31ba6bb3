-- ===== src/Handlers/Works.antt =====
-- src/handlers.rs: the procedures that make sessions and connections when libwebrtc does not fail.
use load_test_server.Prelude.{ℕ, ◌%◌, ◌^◌, ◌<◌, ◌≡◌, refl, ap, ◌∙◌, inl, inr, String, none, some}
use load_test_server.Result.{Held, ok, convert}
use load_test_server.Error.{status_from}
use load_test_server.Log
use load_test_server.Log.{LogLevel}
use load_test_server.WebrtcPool.{WebrtcPool}
use load_test_server.WebrtcPool.Balance.{create_cases}
use load_test_server.WebrtcPool.Fresh.{IsFresh, new_pool}
use load_test_server.Session.{Session}
use load_test_server.Data.{Server, lookup, call_session}
use load_test_server.Handlers.Create.{create_session_cases}
use load_test_server.Handlers.Sessions.{create_session}
use load_test_server.Handlers.PeerConnections.{
  store_made, make_peer_connection, create_peer_connection,
}
use load_test_server.Handlers.Found.{create_result}
use load_test_server.Webrtc.{CreateSessionRequest, CreatePeerConnectionRequest}
use load_test_server.Session.Made.{session-Succeeds, connection-Succeeds}
use load_test_server.External.Reliable.{Reliable}
use load_test_server.External.Platform.{Platform}

module _ ⦃P : Platform⦄ where
  open P use {World, by_name, by_id, num_cpus}
  open by_id use {get}
  open by_name use {get-insert_self}

  module _ (reliable : Reliable) where
    has_factory :
        (n : ℕ) (pool : WebrtcPool) → 0 < n → IsFresh n pool → get pool.factory_list 0 ≡ none → ⊥
    has_factory n pool some_factory f missing = rw missing at (f.unused 0 some_factory)

    make-ok :
        (id name : String) (n : ℕ) (s : Held Session World)
        → 0 < n
        → IsFresh n s.item.webrtc_pool
        → (make_peer_connection id name s).0 ≡ ok tt
    unfolding make_peer_connection store_made
    make-ok id name n s some_factory f =
        elim (create_cases id name (record { item = s.item.webrtc_pool; world = s.world })) [
          | inl (nothing, e) ↦ absurd (has_factory n s.item.webrtc_pool some_factory f (nothing 0))
          | inr (x, least, e) ↦
              let (pc, made) =
                (connection-Succeeds reliable x.1.peer_connection_factory x.0 id name).returns
                  s.world in
              rw (e, make_peer_connection) (rw (made, store_made) refl)
        ]

    connect-ok :
        (r : CreatePeerConnectionRequest) (n : ℕ) (t : Server) (x : Session)
        → lookup r.session_id t ≡ some x
        → 0 < n
        → IsFresh n x.webrtc_pool
        → (create_peer_connection r t).0 ≡ ok tt
    unfolding call_session
    connect-ok r n t x found some_factory f =
        create_result r t
        ∙ rw (found, call_session)
            (ap (convert status_from) (
              make-ok r.peer_connection_id r.name n (record { item = x; world = t.world })
                some_factory f))

    -- If no call of libwebrtc fails that making a session and a connection needs, a frame is there to
    -- be received, and the number of processors is not zero as a u32, then create_session succeeds on
    -- any server, and after it create_peer_connection for that session succeeds.
    pub create_session-create_peer_connection :
        (r : CreateSessionRequest) (peer_connection_id name : String) (s : Server)
        → ((w : World) → 0 < num_cpus w % 2 ^ 32)
        → let (a, t) = create_session r s in
          (a ≡ ok (record { session_id = r.session_id }))
          × ((create_peer_connection
                (record {
                  session_id = r.session_id;
                  peer_connection_id = peer_connection_id;
                  name = name;
                })
                t).0
              ≡ ok tt)
    create_session-create_peer_connection r peer_connection_id name s processors =
        let (x, can) =
          (session-Succeeds reliable r.session_id r.name r.polling_state_s
              (Log.from_i32 r.log_level)).returns
            s.world in
        elim (create_session_cases r s) [
          | inl (x, made, n, e) ↦
              let (w, pool_made) = n.pool_made in
              let (count, fresh, even) = new_pool (num_cpus w) w x.webrtc_pool pool_made in
              rw e (
                refl,
                connect-ok
                    (record {
                      session_id = r.session_id;
                      peer_connection_id = peer_connection_id;
                      name = name;
                    })
                    (num_cpus w % 2 ^ 32) _ x (get-insert_self s.item.sessions r.session_id x)
                    (processors w) fresh,
              )
          | inr (inl (e, failed, _)) ↦ absurd (cc (failed, can))
          | inr (inr (failed, _)) ↦ absurd (cc (failed, can))
        ]
