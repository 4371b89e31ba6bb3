-- ===== src/External/Reliable.antt =====
-- Calls of libwebrtc that do not fail, as a condition on the platform.
use load_test_server.Prelude.{ℕ, ◌≡◌, true, is_some, String, List}
use load_test_server.Result.Succeeds.{Succeeds}
use load_test_server.External.Types.{SdpType, TransceiverDirection}
use load_test_server.External.Platform.{Platform}

module _ ⦃P : Platform⦄ where
  open P use {
    World, ConnectionState, IceCandidate, VideoTransceiver, VideoEncoderPoolTx, VideoEncoderFactory,
    Factory, Sender, video_encoder_pool_create, reactive_video_encoder_create,
    create_factory_with_config, PeerConnectionFactory, factory_create_peer_connection,
    EmptyFrameProducer, FrameReceiver, EmptyFrame, VideoTrackSourceWriter, empty_frame_producer_new,
    empty_frame_producer_start, recv_frame, push_empty_frame, PeerConnection, SessionDescription,
    webrtc_create_offer, webrtc_create_answer, session_description_new,
    webrtc_set_local_description, webrtc_set_remote_description, VideoTrackSource, VideoTrack,
    create_video_track, add_video_track, add_video_transceiver,
  }

  -- the calls that make sessions and peer connections, and a first frame to be received
  pub record Reliable : Type 0 where
    pub pool_created : Succeeds video_encoder_pool_create
    pub encoder_created : (tx : VideoEncoderPoolTx) → Succeeds (reactive_video_encoder_create tx)
    pub factory_created :
        (f : Factory) (e : VideoEncoderFactory) → Succeeds (create_factory_with_config f e)
    pub producer_made : (fps : ℕ) → Succeeds (empty_frame_producer_new fps)
    pub producer_started : (p : EmptyFrameProducer) → Succeeds (empty_frame_producer_start p)
    pub frame_received : (rx : FrameReceiver) (w : World) → is_some (recv_frame rx w).0 ≡ true
    pub frame_pushed :
        (writer : VideoTrackSourceWriter) (frame : EmptyFrame)
        → Succeeds (push_empty_frame writer frame)
    pub connection_made :
        (f : PeerConnectionFactory) (states : Sender ConnectionState)
        (candidates : Sender IceCandidate) (tracks : Sender VideoTransceiver)
        → Succeeds (factory_create_peer_connection f states candidates tracks)

  -- the calls that negotiate over a peer connection and add media to it
  pub record Negotiates : Type 0 where
    pub offer_created : (pc : PeerConnection) → Succeeds (webrtc_create_offer pc)
    pub answer_created : (pc : PeerConnection) → Succeeds (webrtc_create_answer pc)
    pub description_made : (t : SdpType) (text : String) → Succeeds (session_description_new t text)
    pub local_set :
        (pc : PeerConnection) (d : SessionDescription)
        → Succeeds (webrtc_set_local_description pc d)
    pub remote_set :
        (pc : PeerConnection) (d : SessionDescription)
        → Succeeds (webrtc_set_remote_description pc d)
    pub track_created :
        (f : PeerConnectionFactory) (label : String) (source : VideoTrackSource)
        → Succeeds (create_video_track f label source)
    pub track_added :
        (pc : PeerConnection) (ids : List String) (track : VideoTrack)
        → Succeeds (add_video_track pc ids track)
    pub transceiver_added :
        (pc : PeerConnection) (ids : List String) (d : TransceiverDirection) (track : VideoTrack)
        → Succeeds (add_video_transceiver pc ids d track)
