-- ===== src/System.antt =====
-- src/main.rs: the server and its metrics task as one machine. An event is a whole request or one
-- turn of the metrics loop, in any order; each awaits with its reference into the map held.
pub mod Invariant
pub mod Collector
pub mod Polled
pub mod Errors
pub mod Lifecycle
pub mod Turns
pub mod History
pub mod Interleaved
pub mod Touch
pub mod Schedule
use load_test_server.Prelude.{ℕ, Option, none, some, List, [], ◌∷◌}
use load_test_server.Result.{Result, Exec, ok, err, panic, ◌>>=◌}
use load_test_server.Error.{Status}
use load_test_server.Log
use load_test_server.Data
use load_test_server.Data.{Server}
use load_test_server.Collection.{collect}
use load_test_server.Handlers.Sessions
use load_test_server.Handlers.PeerConnections
use load_test_server.Handlers.Observer
use load_test_server.Webrtc.{
  CreateSessionRequest, StartSessionRequest, StopSessionRequest, GetStatsRequest,
  CreatePeerConnectionRequest, CreateSdpRequest, SetSdpRequest, AddTrackRequest, ObserverRequest,
}
use load_test_server.External.Platform.{Platform}

-- the procedures of the service WebRtc
pub data Request : Type 0 where
  create_session : CreateSessionRequest → Request
  start_session : StartSessionRequest → Request
  stop_session : StopSessionRequest → Request
  get_stats : GetStatsRequest → Request
  create_peer_connection : CreatePeerConnectionRequest → Request
  create_offer : CreateSdpRequest → Request
  create_answer : CreateSdpRequest → Request
  set_local_description : SetSdpRequest → Request
  set_remote_description : SetSdpRequest → Request
  add_track : AddTrackRequest → Request
  add_transceiver : AddTrackRequest → Request
  observer : ObserverRequest → Request
  get_transceivers : ObserverRequest → Request

pub data Event : Type 0 where
  request : Request → Event
  tick : Event

module _ ⦃P : Platform⦄ where
  open P use {World}

  -- how a procedure ends, without the content of its response
  abbrev pub outcome : {A : Type 0} → Exec Server Status A → Exec Server Status (Unit {0})
  outcome m = m >>= λ _ s. (ok tt, s)

  unfoldable pub handle : Request → Exec Server Status (Unit {0})
  handle (create_session r) = outcome (Sessions.create_session r)
  handle (start_session r) = outcome (Sessions.start_session r)
  handle (stop_session r) = outcome (Sessions.stop_session r)
  handle (get_stats r) = outcome (Sessions.get_stats r)
  handle (create_peer_connection r) = outcome (PeerConnections.create_peer_connection r)
  handle (create_offer r) = outcome (PeerConnections.create_offer r)
  handle (create_answer r) = outcome (PeerConnections.create_answer r)
  handle (set_local_description r) = outcome (PeerConnections.set_local_description r)
  handle (set_remote_description r) = outcome (PeerConnections.set_remote_description r)
  handle (add_track r) = outcome (PeerConnections.add_track r)
  handle (add_transceiver r) = outcome (PeerConnections.add_transceiver r)
  handle (observer r) = outcome (Observer.observer r)
  handle (get_transceivers r) = outcome (Observer.get_transceivers r)

  -- `elapsed` of the metrics task, none once the task has ended
  pub record System : Type 0 where
    pub server : Server
    pub collector : Option ℕ

  unfoldable pub main : World → System
  unfolding Data.new
  main w = record {
    server = record { item = Data.new; world = Log.set_log_level Log.default w };
    collector = some 1;
  }

  abbrev pub next_collector : {E : Type 0} → Result E ℕ → Option ℕ
  next_collector (ok elapsed) = some elapsed
  next_collector (err e) = none
  next_collector panic = none

  abbrev pub run_collector : Option ℕ → System → System
  run_collector none s = s
  run_collector (some elapsed) s =
      let (r, server) = collect elapsed s.server in
      record { server = server; collector = next_collector r }

  unfoldable pub step : Event → System → System
  step (request r) s = record s { server = (handle r s.server).1 }
  step tick s = run_collector s.collector s

  unfoldable pub run : List Event → System → System
  run [] s = s
  run (e ∷ es) s = run es (step e s)
