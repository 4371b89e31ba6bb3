-- ===== src/Session.antt =====
-- src/session.rs: a load test session, its life cycle and its peer connections.
pub mod Lifecycle
pub mod Tally
pub mod Order
pub mod Refresh
pub mod Reported
pub mod New
pub mod Made
pub mod Valid
pub mod Kept
use Prim.Native.String.{◌++◌}
use load_test_server.Prelude.{
  ℕ, ◌+◌, ◌%◌, ◌^◌, Bool, true, false, String, Option, none, some, List, [], ◌∷◌, map,
  if◌then◌else◌,
}
use load_test_server.Result.{Result, Exec, Held, ok, err, pure, call, ◌>>=◌, ◌>>◌}
use load_test_server.Error.{ServerError, invalid_state_error, invalid_peer_connection}
use load_test_server.Log
use load_test_server.Log.{LogLevel}
use load_test_server.Helpers.{elapsed}
use load_test_server.WebrtcPool
use load_test_server.WebrtcPool.{WebrtcPool}
use load_test_server.PeerConnection.{
  PeerConnectionManager, VideoSendState, sending, not_sending, VideoReceiveState, receiving,
  not_receiving,
}
use load_test_server.PeerConnection.Media.{file_video_source}
use load_test_server.PeerConnection.Polling.{export_stats}
use load_test_server.External.Platform.{Platform}

pub data SessionState : Type 0 where
  created started stopped : SessionState

-- derive(PartialEq)
abbrev pub same_state : SessionState → SessionState → Bool
same_state created created = true
same_state started started = true
same_state stopped stopped = true
same_state _ _ = false

-- the counters are i32, kept as their bit patterns
pub record PeerConnectionState : Type 0 where
  pub num_sending : ℕ
  pub num_not_sending : ℕ
  pub num_receiving : ℕ
  pub num_not_receiving : ℕ

abbrev pub default : PeerConnectionState
default = record { num_sending = 0; num_not_sending = 0; num_receiving = 0; num_not_receiving = 0 }

-- `+= 1` on an i32
abbrev pub increment : ℕ → ℕ
increment n = (n + 1) % 2 ^ 32

abbrev tally_send : VideoSendState → PeerConnectionState → PeerConnectionState
tally_send (sending _) t = record t { num_sending = increment t.num_sending }
tally_send (not_sending _) t = record t { num_not_sending = increment t.num_not_sending }

abbrev tally_receive : VideoReceiveState → PeerConnectionState → PeerConnectionState
tally_receive (receiving _) t = record t { num_receiving = increment t.num_receiving }
tally_receive (not_receiving _) t = record t { num_not_receiving = increment t.num_not_receiving }

module _ ⦃P : Platform⦄ where
  open P use {
    World, by_name, now, num_cpus, VideoTrackSource, EmptyFrameProducer,
    empty_frame_producer_cancel,
  }
  open by_name use {Map, empty, insert, get, entries}

  pub record Session : Type 0 where
    pub id : String
    pub name : String
    pub peer_connections : Map PeerConnectionManager
    pub video_source : VideoTrackSource
    pub polling_state_s : ℕ  -- a Duration of whole seconds, from a u64
    pub log_level : LogLevel
    pub state : SessionState
    pub start_time : Option ℕ
    pub stop_time : Option ℕ
    pub webrtc_pool : WebrtcPool
    pub frame_producer : EmptyFrameProducer

  unfoldable pub new : String → String → ℕ → LogLevel → Exec World ServerError Session
  new id name polling_state_s log_level = do
    call (λ w. (tt, Log.set_log_level log_level w))
    (video_source, frame_producer) ← file_video_source
    factories ← call (λ w. (num_cpus w, w))
    webrtc_pool ← WebrtcPool.new factories
    pure (record {
      id = id;
      name = name;
      peer_connections = empty;
      video_source = video_source;
      polling_state_s = polling_state_s;
      log_level = log_level;
      state = created;
      start_time = none;
      stop_time = none;
      webrtc_pool = webrtc_pool;
      frame_producer = frame_producer;
    })

  unfoldable pub start : Exec (Held Session World) ServerError (Unit {0})
  start s =
      if same_state s.item.state created
      then (let (t, w) = now s.world in
          (
            ok tt,
            record { item = record (s.item) { state = started; start_time = some t }; world = w },
          ))
      else (err (invalid_state_error "Only a created session can be started"), s)

  -- `drop(self)` drops the reference only
  unfoldable pub stop : Exec (Held Session World) ServerError (Unit {0})
  stop s =
      if same_state s.item.state started
      then (let (t, w) = now s.world in
          (
            ok tt,
            record {
              item = record (s.item) { state = stopped; stop_time = some t };
              world = Log.set_log_level Log.default w;
            },
          ))
      else (err (invalid_state_error "Only a started session can be stopped"), s)

  -- one peer connection of `export_peer_connection_stats`: an error is logged and dropped
  unfoldable pub export_at : Bool → String → Held Session World → Held Session World
  export_at should_poll_state pc_id s = elim (get s.item.peer_connections pc_id) [
    | none ↦ s
    | some pc ↦
        let (r, t) =
          export_stats s.item.id should_poll_state (record { item = pc; world = s.world }) in
        record {
          item = record (s.item) { peer_connections = insert s.item.peer_connections pc_id t.item };
          world = t.world;
        }
  ]

  unfoldable pub export_each : Bool → List String → Held Session World → Held Session World
  export_each should_poll_state [] s = s
  export_each should_poll_state (pc_id ∷ pc_ids) s =
      export_each should_poll_state pc_ids (export_at should_poll_state pc_id s)

  unfoldable pub export_peer_connection_stats : Bool → Held Session World → Held Session World
  unfolding export_each
  export_peer_connection_stats should_poll_state s =
      export_each should_poll_state (map (λ e. e.0) (entries s.item.peer_connections)) s

  unfoldable pub tally_one : PeerConnectionManager → PeerConnectionState → PeerConnectionState
  tally_one pc t = tally_receive pc.state.video_receive (tally_send pc.state.video_send t)

  unfoldable pub tally :
      PeerConnectionState → List (String × PeerConnectionManager) → PeerConnectionState
  tally t [] = t
  tally t ((_, pc) ∷ rest) = tally (tally_one pc t) rest

  unfoldable pub peer_connection_states : Session → PeerConnectionState
  unfolding tally tally_one
  peer_connection_states session = tally default (entries session.peer_connections)

  unfoldable pub add_peer_connection : PeerConnectionManager → Session → Session
  add_peer_connection peer_connection session = record session {
    peer_connections = insert session.peer_connections peer_connection.id peer_connection;
  }

  unfoldable pub get_peer_connection : String → Session → Result ServerError PeerConnectionManager
  get_peer_connection id session = elim (get session.peer_connections id) [
    | none ↦ err (invalid_peer_connection ("Peer connection " ++ id ++ " not found"))
    | some pc ↦ ok pc
  ]

  -- SystemTime::now is read in the started state only
  unfoldable pub elapsed_time : Session → World → Option ℕ × World
  unfolding elapsed
  elapsed_time session w = elim session.state [
    | created ↦ (none, w)
    | started ↦ let (t, w') = now w in (elapsed session.start_time (some t), w')
    | stopped ↦ (elapsed session.start_time session.stop_time, w)
  ]

  -- impl Drop for Session
  unfoldable pub drop : Session → World → World
  drop session w = empty_frame_producer_cancel session.frame_producer w
