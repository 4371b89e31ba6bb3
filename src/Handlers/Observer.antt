-- ===== src/Handlers/Observer.antt =====
-- src/handlers.rs: the transceivers of a peer connection, and the stream of its events.
pub mod Stream
use load_test_server.Prelude.{String, none, some, ◌++◌, map}
use load_test_server.Result.{Exec, ok, err, pure, call, convert, on_world, ◌>>=◌}
use load_test_server.Error.{ServerError, Status, not_found, status_from}
use load_test_server.PeerConnection
use load_test_server.PeerConnection.{
  PeerConnectionManager, take_video_track_rx, take_ice_candidates_rx,
}
use load_test_server.Session.{Session}
use load_test_server.Data.{Server, write, get_session}
use load_test_server.Webrtc.{ObserverRequest, Transceiver, GetTransceiversResponse}
use load_test_server.External.Types.{direction_number, media_type_number}
use load_test_server.External.Platform.{Platform}
use load_test_server.Handlers.{status, direction_from, media_type_from}

module _ ⦃P : Platform⦄ where
  open P use {
    World, by_name, nanoid, sdp_type_from_i32, Receiver, session_description_to_string,
    VideoTransceiver, video_mid, video_direction, video_media_type, AudioTransceiver, audio_mid,
    audio_direction, audio_media_type, IceCandidate,
  }
  open by_name use {insert, get}

  -- the peer connection of the two procedures that answer NotFound themselves
  unfoldable pub find_in : String → Session → Exec Server Status PeerConnectionManager
  find_in peer_connection_id session s = elim (get session.peer_connections peer_connection_id) [
    | none ↦ (err (not_found "PeerConnection not found"), s)
    | some pc ↦ (ok pc, s)
  ]

  -- both receivers, the one for tracks first
  unfoldable pub take_receivers :
      Exec PeerConnectionManager ServerError (Receiver VideoTransceiver × Receiver IceCandidate)
  unfolding take_video_track_rx take_ice_candidates_rx
  take_receivers = do
    track_rx ← take_video_track_rx
    ice_rx ← take_ice_candidates_rx
    pure (track_rx, ice_rx)

  -- the connection stays under its key in the session, and the session under its own
  unfoldable pub take_from :
      ObserverRequest
      → Session
      → PeerConnectionManager
      → Exec Server Status (Receiver VideoTransceiver × Receiver IceCandidate)
  unfolding take_receivers status_from
  take_from r session pc s =
      let (rxs, pc') = take_receivers pc in
      (
        convert status_from rxs,
        write r.session_id
            (record session {
              peer_connections = insert session.peer_connections r.peer_connection_id pc';
            })
            s.world s,
      )

  -- the receivers that the stream of the response reads
  unfoldable pub observer :
      ObserverRequest → Exec Server Status (Receiver VideoTransceiver × Receiver IceCandidate)
  unfolding get_session find_in take_from
  observer r = do
    session ← status (get_session r.session_id)
    pc ← find_in r.peer_connection_id session
    take_from r session pc

  unfoldable pub video_to_webrtc : VideoTransceiver → Transceiver
  unfolding direction_from media_type_from
  video_to_webrtc t = record {
    id = "";
    mid = video_mid t;
    direction = direction_number (direction_from (video_direction t));
    media_type = media_type_number (media_type_from (video_media_type t));
  }

  unfoldable pub audio_to_webrtc : AudioTransceiver → Transceiver
  unfolding direction_from media_type_from
  audio_to_webrtc t = record {
    id = "";
    mid = audio_mid t;
    direction = direction_number (direction_from (audio_direction t));
    media_type = media_type_number (media_type_from (audio_media_type t));
  }

  unfoldable pub get_transceivers : ObserverRequest → Exec Server Status GetTransceiversResponse
  unfolding get_session find_in status_from video_to_webrtc audio_to_webrtc
  get_transceivers r = do
    session ← status (get_session r.session_id)
    pc ← find_in r.peer_connection_id session
    (video, audio) ← on_world (call (PeerConnection.get_transceivers pc))
    pure (record { transceivers = map video_to_webrtc video ++ map audio_to_webrtc audio })
