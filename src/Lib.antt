-- ===== src/Lib.antt =====
-- The load test server: a gRPC server that holds load test sessions. A session owns WebRTC peer
-- connections and a pool of libwebrtc factories; clients create, start and stop sessions, add
-- connections and tracks, and read statistics; and a background task exports the statistics of every
-- connection to statsd once a second.
--
-- Parts, and the files that model them (paths are from the repository's root):
--   src/error.rs, src/log.rs, src/helpers.rs: Error, Log, Helpers.
--   src/metrics.rs: Metrics. write_video_rx_stats and write_video_tx_stats are lists of gauges, sent in
--     order.
--   src/webrtc_pool.rs: WebrtcPool (WebRTCPool::new) and WebrtcPool/Create
--     (create_peer_connection_manager), and WebrtcPool/Concurrent, where the two parts of several
--     calls interleave. Proofs: WebrtcPool/Balance, WebrtcPool/Fresh, WebrtcPool/Spread,
--     WebrtcPool/Total, WebrtcPool/Concurrent/Apart.
--   src/peer_connection.rs: PeerConnection, PeerConnection/Media (tracks and the video source),
--     PeerConnection/Polling (export_stats and the send and receive states). Proofs:
--     PeerConnection/New, PeerConnection/Works, and the children History and Same of
--     PeerConnection/Polling.
--   src/session.rs: Session. Proofs: Session/Lifecycle, Session/Tally, Session/Order,
--     Session/Refresh, Session/Reported, Session/New, Session/Made, Session/Kept,
--     Session/Valid.
--   src/stats.rs: Stats.
--   src/data.rs: Data (the map of sessions), Collection (the loop of start_metrics_collection).
--     Proofs: Data/Laws, Collection/Turns.
--   src/handlers.rs: Handlers, with the procedures in Handlers/Sessions, Handlers/PeerConnections,
--     Handlers/Observer and Handlers/Observer/Stream.
--     Proofs: Handlers/Create, Handlers/Calls, Handlers/Reading, Handlers/Valid, Handlers/Frame,
--     Handlers/Found, Handlers/Connections, Handlers/Exchange, Handlers/Works,
--     Handlers/Stats.
--   proto/webrtc.proto: Webrtc, the messages.
--   src/main.rs: System, the machine of requests and turns of the metrics task. Proofs:
--     System/Invariant, System/Collector, System/Polled, System/Errors, System/Lifecycle,
--     System/Turns, System/History, System/Touch and System/Schedule with their children.
--     System/Interleaved is the finer machine, in which requests come between any two steps of the
--     metrics task; its children are proofs, and System/Interleaved/Coarse relates the two machines.
--   src/config.rs, src/server.rs, and main again: Startup, the process from its start to its end.
--   The unit tests in src/peer_connection.rs, src/session.rs, src/data.rs and src/stats.rs:
--     UnitTests/Connections, UnitTests/Sessions and UnitTests/Statistics, as programs that panic
--     where an assertion or an unwrap fails. Proofs: UnitTests/Ready, UnitTests/Passing.
--   Prelude and Result are shared helpers; External/Reliable says which calls of libwebrtc
--     do not fail where a theorem supposes so; Tests holds a concrete platform and runs.
--
-- How the code corresponds. A method that changes a state and may fail is a function from the state
-- to a result beside the new state (Result.Exec): what was written before an error stays written. A
-- result is ok, err or panic. An object is held together with the world, which is all state outside
-- of the server (Result.Held). What the server calls and does not implement, which is dashmap,
-- libwebrtc, tokio's channels, tonic's transport, dogstatsd, dotenv, envy, nanoid, num_cpus, the
-- clock and pauses, tracing_subscriber, socket addresses and the code that prost generates, is the
-- record External.Platform, an instance argument of every definition. Its laws are those of the map
-- (External.DashMap) and of the numbering of enumerations; an association list meets the first
-- (External.Assoc).
--
-- Bounds. Counters wrap as in a release build: an i32 in the tally at 2 ^ 32 as a bit pattern, an
-- AtomicUsize and the elapsed seconds at 2 ^ 64. Byte counts are u64 values that come from outside and
-- are only compared. All loops go over lists or count down, so no fuel is needed.
--
-- Not modelled: contention for the locks of dashmap, so the finer machine allows schedules that the
-- locks exclude. A request is one step in both machines: those that change the map or a session do
-- not await while they do, and the awaits of the others on libwebrtc do not interleave with other
-- steps. In WebrtcPool/Concurrent the reads of one choice are one step. The choice of the select in
-- the stream of the procedure observer is left open. Of the thread that forwards empty frames the
-- body of its loop is modelled. What tonic does until it returns is a list of requests and turns.
-- The unit tests that export statistics or read CONFIG are not modelled, since the initialisation
-- of METRICS and CONFIG, which they force, can panic; what is dropped at the end of a unit test
-- is left out. Left out are also the log lines, the implementations of Debug, the construction of
-- the statsd client in METRICS, which is taken to succeed, and the build script.
pub mod Prelude
pub mod Result
pub mod External
pub mod Error
pub mod Log
pub mod Helpers
pub mod Metrics
pub mod WebrtcPool
pub mod PeerConnection
pub mod Session
pub mod Startup
pub mod Stats
pub mod Data
pub mod Webrtc
pub mod Handlers
pub mod Collection
pub mod System
pub mod Tests
pub mod UnitTests
