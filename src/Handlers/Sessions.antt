-- ===== src/Handlers/Sessions.antt =====
-- src/handlers.rs: the procedures on whole sessions.
use load_test_server.Prelude.{some}
use load_test_server.Result.{Exec, Held, pure, on_world, ◌>>=◌, ◌>>◌}
use load_test_server.Error.{Status, status_from}
use load_test_server.Log
use load_test_server.Session
use load_test_server.Session.{Session, add_peer_connection, get_peer_connection}
use load_test_server.Session.{Session}
use load_test_server.Error.{ServerError}
use load_test_server.Stats
use load_test_server.Stats.{webrtc_session_stats}
use load_test_server.Data.{Server, add_session, call_session}
use load_test_server.Webrtc.{
  CreateSessionRequest, CreateSessionResponse, StartSessionRequest, StopSessionRequest,
  GetStatsRequest, GetStatsResponse,
}
use load_test_server.External.Platform.{Platform}
use load_test_server.Handlers.{status}

module _ ⦃P : Platform⦄ where
  open P use {World}

  unfoldable pub create_session : CreateSessionRequest → Exec Server Status CreateSessionResponse
  unfolding add_session status_from
  create_session r = do
    session ←
        status
          (on_world (Session.new r.session_id r.name r.polling_state_s (Log.from_i32 r.log_level)))
    status (add_session session)
    pure (record { session_id = r.session_id })

  unfoldable pub start_session : StartSessionRequest → Exec Server Status (Unit {0})
  unfolding call_session status_from
  start_session r = status (call_session r.session_id Session.start)

  unfoldable pub stop_session : StopSessionRequest → Exec Server Status (Unit {0})
  unfolding call_session status_from
  stop_session r = status (call_session r.session_id Session.stop)

  unfoldable pub read_stats : Exec (Held Session World) ServerError Stats.Stats
  unfolding Stats.get_stats
  read_stats s = on_world (Stats.get_stats s.item) s

  unfoldable pub get_stats : GetStatsRequest → Exec Server Status GetStatsResponse
  unfolding call_session status_from read_stats
  get_stats r = do
    stats ← status (call_session r.session_id read_stats)
    pure (record { session = some (webrtc_session_stats stats.session) })
