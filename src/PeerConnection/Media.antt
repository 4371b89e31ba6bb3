-- ===== src/PeerConnection/Media.antt =====
-- src/peer_connection.rs: tracks, transceivers and the source of empty frames. The thread that
-- forwards frames afterwards is spawned by the platform, with the body of its loop given here.
use Prim.Native.String.{◌++◌}
use load_test_server.Prelude.{ℕ, String, [], ◌∷◌}
use load_test_server.Result.{Exec, pure, call, or_raise, unwrap, unwrap_some, ◌>>=◌, ◌>>◌}
use load_test_server.Error.{ServerError, server_error_from}
use load_test_server.WebrtcPool.{WebrtcPool}
use load_test_server.PeerConnection.{PeerConnectionManager, webrtc}
use load_test_server.External.Types.{send_only}
use load_test_server.External.Platform.{Platform}

module _ ⦃P : Platform⦄ where
  open P use {
    World, by_id, uint_to_string, unexpected_error, VideoTransceiver, VideoTrackSource,
    video_track_source_create, VideoTrackSourceWriter, EmptyFrame, VideoTrack, create_video_track,
    add_video_track, add_video_transceiver, EmptyFrameProducer, default_fps,
    empty_frame_producer_new, empty_frame_producer_start, recv_frame, push_empty_frame,
    spawn_frame_loop,
  }
  open by_id use {get}

  unfoldable pub create_track :
      ℕ → WebrtcPool → VideoTrackSource → String → Exec World ServerError VideoTrack
  unfolding server_error_from
  create_track pool_id pool video_source label = do
    item ←
        or_raise (get pool.factory_list pool_id)
          (server_error_from (unexpected_error ("unknown factory id: " ++ uint_to_string pool_id)))
    webrtc (create_video_track item.peer_connection_factory label video_source)

  unfoldable pub add_track :
      PeerConnectionManager
      → WebrtcPool
      → VideoTrackSource
      → String
      → Exec World ServerError (Unit {0})
  unfolding create_track
  add_track pc pool video_source label = do
    track ← create_track pc.pool_id pool video_source label
    webrtc (add_video_track pc.webrtc_peer_connection ("0" ∷ []) track)

  unfoldable pub add_transceiver :
      PeerConnectionManager
      → WebrtcPool
      → VideoTrackSource
      → String
      → Exec World ServerError VideoTransceiver
  unfolding create_track
  add_transceiver pc pool video_source label = do
    track ← create_track pc.pool_id pool video_source label
    webrtc (add_video_transceiver pc.webrtc_peer_connection ("0" ∷ []) send_only track)

  -- one turn of the thread's loop: a failed push is logged
  unfoldable pub forward_frame : VideoTrackSourceWriter → EmptyFrame → World → World
  forward_frame source_writer frame w = (push_empty_frame source_writer frame w).1

  unfoldable pub file_video_source : Exec World ServerError (VideoTrackSource × EmptyFrameProducer)
  unfolding server_error_from
  file_video_source = do
    (source, source_writer) ← call video_track_source_create
    producer ← webrtc (empty_frame_producer_new default_fps)
    rx ← webrtc (empty_frame_producer_start producer)
    received ← call (recv_frame rx)
    frame ← unwrap_some received
    unwrap (push_empty_frame source_writer frame)
    call (λ w. (tt, spawn_frame_loop rx (forward_frame source_writer) w)) >> pure (source, producer)
