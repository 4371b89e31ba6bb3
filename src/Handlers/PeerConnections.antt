-- ===== src/Handlers/PeerConnections.antt =====
-- src/handlers.rs: the procedures on one peer connection.
use load_test_server.Prelude.{true, String, if◌then◌else◌}
use text.Mathlib.Text.{◌==◌}
use load_test_server.Result.{Result, Exec, Held, ok, err, panic, pure, call, on_world, ◌>>=◌, ◌>>◌}
use load_test_server.Error.{ServerError, Status, status_from}
use load_test_server.WebrtcPool.Create.{create_peer_connection_manager}
use load_test_server.PeerConnection
use load_test_server.PeerConnection.{
  PeerConnectionManager, take_video_track_rx, take_ice_candidates_rx,
}
use load_test_server.PeerConnection.Media
use load_test_server.Session.{Session, add_peer_connection, get_peer_connection}
use load_test_server.Data.{Server, get_session, call_session}
use load_test_server.Webrtc.{
  CreatePeerConnectionRequest, CreateSdpRequest, CreateSdpResponse, SetSdpRequest, SetSdpResponse,
  AddTrackRequest,
}
use load_test_server.External.Types.{WebrtcSdpType, sdp_type_number}
use load_test_server.External.Platform.{Platform}
use load_test_server.Handlers.{status, sdp_type_from, sdp_type_or_default}

module _ ⦃P : Platform⦄ where
  open P use {World, nanoid, sdp_type_from_i32, session_description_to_string}

  -- what the pool has made goes into the session
  unfoldable pub store_made :
      Result ServerError PeerConnectionManager
      → Held Session World
      → Result ServerError (Unit {0}) × Held Session World
  store_made (ok pc) s = (ok tt, record s { item = add_peer_connection pc s.item })
  store_made (err e) s = (err e, s)
  store_made panic s = (panic, s)

  -- the pool counts the new connection also if it cannot be made
  unfoldable pub make_peer_connection :
      String → String → Exec (Held Session World) ServerError (Unit {0})
  unfolding store_made
  make_peer_connection id name s =
      let (r, t) =
        create_peer_connection_manager id name
          (record { item = s.item.webrtc_pool; world = s.world }) in
      store_made r (record { item = record (s.item) { webrtc_pool = t.item }; world = t.world })

  -- get_session_attribute! and `get_session` find the same session
  unfoldable pub create_peer_connection :
      CreatePeerConnectionRequest → Exec Server Status (Unit {0})
  unfolding call_session get_session status_from make_peer_connection
  create_peer_connection r =
      status (get_session r.session_id)
      >> status (call_session r.session_id (make_peer_connection r.peer_connection_id r.name))

  -- the session and the peer connection that a request names
  unfoldable pub find : String → String → Exec Server Status (Session × PeerConnectionManager)
  unfolding get_session get_peer_connection status_from
  find session_id peer_connection_id = do
    session ← status (get_session session_id)
    pc ← status (λ s. (get_peer_connection peer_connection_id session, s))
    pure (session, pc)

  unfoldable pub create_offer : CreateSdpRequest → Exec Server Status CreateSdpResponse
  unfolding find PeerConnection.create_offer
  create_offer r = do
    (session, pc) ← find r.session_id r.peer_connection_id
    sdp ← status (on_world (PeerConnection.create_offer pc))
    pure (record {
      sdp = session_description_to_string sdp;
      sdp_type = sdp_type_number WebrtcSdpType.offer;
      session_id = r.session_id;
      peer_connection_id = r.peer_connection_id;
    })

  unfoldable pub create_answer : CreateSdpRequest → Exec Server Status CreateSdpResponse
  unfolding find PeerConnection.create_answer
  create_answer r = do
    (session, pc) ← find r.session_id r.peer_connection_id
    sdp ← status (on_world (PeerConnection.create_answer pc))
    pure (record {
      sdp = session_description_to_string sdp;
      sdp_type = sdp_type_number WebrtcSdpType.answer;
      session_id = r.session_id;
      peer_connection_id = r.peer_connection_id;
    })

  unfoldable pub set_local_description : SetSdpRequest → Exec Server Status SetSdpResponse
  unfolding find sdp_type_from PeerConnection.set_local_description
  set_local_description r = do
    let sdp_type = sdp_type_from (sdp_type_or_default (sdp_type_from_i32 r.sdp_type))
    (session, pc) ← find r.session_id r.peer_connection_id
    status (on_world (PeerConnection.set_local_description pc sdp_type r.sdp))
    pure (record {
      session_id = r.session_id;
      peer_connection_id = r.peer_connection_id;
      success = true;
    })

  unfoldable pub set_remote_description : SetSdpRequest → Exec Server Status SetSdpResponse
  unfolding find sdp_type_from PeerConnection.set_remote_description
  set_remote_description r = do
    let sdp_type = sdp_type_from (sdp_type_or_default (sdp_type_from_i32 r.sdp_type))
    (session, pc) ← find r.session_id r.peer_connection_id
    status (on_world (PeerConnection.set_remote_description pc sdp_type r.sdp))
    pure (record {
      session_id = r.session_id;
      peer_connection_id = r.peer_connection_id;
      success = true;
    })

  unfoldable pub add_track : AddTrackRequest → Exec Server Status (Unit {0})
  unfolding find Media.add_track
  add_track r = do
    (session, pc) ← find r.session_id r.peer_connection_id
    status (on_world (Media.add_track pc session.webrtc_pool session.video_source r.track_label))

  -- an empty label is replaced by a fresh id
  unfoldable pub label_or_fresh : String → World → String × World
  label_or_fresh label w = if label == "" then nanoid w else (label, w)

  unfoldable pub add_transceiver : AddTrackRequest → Exec Server Status (Unit {0})
  unfolding find label_or_fresh Media.add_transceiver
  add_transceiver r = do
    (session, pc) ← find r.session_id r.peer_connection_id
    track_label ← on_world (call (label_or_fresh r.track_label))
    added ←
        status
          (on_world (Media.add_transceiver pc session.webrtc_pool session.video_source track_label))
    pure tt
