-- ===== src/Handlers/Exchange.antt =====
-- src/handlers.rs: the descriptions that one client reads and another sets.
use load_test_server.Prelude.{◌≡◌, refl, true, String}
use load_test_server.Result.{Exec, ok}
use load_test_server.Error.{Status}
use load_test_server.PeerConnection
use load_test_server.PeerConnection.{PeerConnectionManager}
use load_test_server.Session.{Session}
use load_test_server.Data.{Server}
use load_test_server.Handlers.{sdp_type_from, sdp_type_or_default}
use load_test_server.Handlers.PeerConnections.{
  find, create_offer, create_answer, set_local_description, set_remote_description,
}
use load_test_server.Webrtc.{CreateSdpRequest, CreateSdpResponse, SetSdpRequest, SetSdpResponse}
use load_test_server.External.Types.{SdpType, WebrtcSdpType, sdp_type_number}
use load_test_server.External.Platform.{Platform}

-- which description is made, and of which end it becomes the description
pub data Kind : Type 0 where
  an_offer an_answer : Kind

pub data Side : Type 0 where
  local remote : Side

abbrev pub type_of : Kind → SdpType
type_of an_offer = SdpType.offer
type_of an_answer = SdpType.answer

abbrev webrtc_type_of : Kind → WebrtcSdpType
webrtc_type_of an_offer = WebrtcSdpType.offer
webrtc_type_of an_answer = WebrtcSdpType.answer

-- the request that passes an answer of the server on
abbrev pub passed_on : CreateSdpResponse → String → String → SetSdpRequest
passed_on reply session_id pc_id = record {
  session_id = session_id;
  peer_connection_id = pc_id;
  sdp = reply.sdp;
  sdp_type = reply.sdp_type;
}

module _ ⦃P : Platform⦄ where
  open P use {
    World, WebRtcError, SessionDescription, session_description_to_string, webrtc_create_offer,
    webrtc_create_answer, session_description_new, webrtc_set_local_description,
    webrtc_set_remote_description, sdp_type_from_i32, sdp_type_from_i32-number,
  }

  abbrev pub webrtc_create : Kind → P.PeerConnection → Exec World WebRtcError SessionDescription
  webrtc_create an_offer = webrtc_create_offer
  webrtc_create an_answer = webrtc_create_answer

  abbrev pub create : Kind → CreateSdpRequest → Exec Server Status CreateSdpResponse
  create an_offer = create_offer
  create an_answer = create_answer

  abbrev pub set : Side → SetSdpRequest → Exec Server Status SetSdpResponse
  set local = set_local_description
  set remote = set_remote_description

  abbrev pub webrtc_set :
      Side → P.PeerConnection → SessionDescription → Exec World WebRtcError (Unit {0})
  webrtc_set local = webrtc_set_local_description
  webrtc_set remote = webrtc_set_remote_description

  -- the answer of create_offer or create_answer when libwebrtc makes the description
  abbrev pub reply_of : Kind → CreateSdpRequest → SessionDescription → CreateSdpResponse
  reply_of kind r d = record {
    session_id = r.session_id;
    peer_connection_id = r.peer_connection_id;
    sdp = session_description_to_string d;
    sdp_type = sdp_type_number (webrtc_type_of kind);
  }

  create_reply :
      (kind : Kind) (r : CreateSdpRequest) (s : Server) (x : Session) (pc : PeerConnectionManager)
      (d : SessionDescription) (w : World)
      → find r.session_id r.peer_connection_id s ≡ (ok (x, pc), s)
      → webrtc_create kind pc.webrtc_peer_connection s.world ≡ (ok d, w)
      → create kind r s ≡ (ok (reply_of kind r d), record s { world = w })
  unfolding create_offer create_answer PeerConnection.create_offer PeerConnection.create_answer
  create_reply an_offer r s x pc d w from made = rw (from, made) refl
  create_reply an_answer r s x pc d w from made = rw (from, made) refl

  type_from :
      (kind : Kind)
      → sdp_type_from
          (sdp_type_or_default (sdp_type_from_i32 (sdp_type_number (webrtc_type_of kind))))
        ≡ type_of kind
  unfolding sdp_type_from
  type_from an_offer = rw (sdp_type_from_i32-number (webrtc_type_of an_offer)) refl
  type_from an_answer = rw (sdp_type_from_i32-number (webrtc_type_of an_answer)) refl

  -- the request to set a description that is passed on, when libwebrtc reads and takes it
  set-passed_on :
      (kind : Kind) (side : Side) (r : CreateSdpRequest) (d d' : SessionDescription) (t : Server)
      (y : Session) (to : PeerConnectionManager) (v v' : World) (session_id pc_id : String)
      → find session_id pc_id t ≡ (ok (y, to), t)
      → session_description_new (type_of kind) (session_description_to_string d) t.world
        ≡ (ok d', v)
      → webrtc_set side to.webrtc_peer_connection d' v ≡ (ok tt, v')
      → set side (passed_on (reply_of kind r d) session_id pc_id) t ≡ (
        ok (record { session_id = session_id; peer_connection_id = pc_id; success = true }),
        record t { world = v' },
      )
  unfolding set_local_description set_remote_description PeerConnection.set_local_description
      PeerConnection.set_remote_description
  set-passed_on kind local r d d' t y to v v' session_id pc_id found parsed taken =
      rw (found, type_from kind) (rw parsed (rw taken refl))
  set-passed_on kind remote r d d' t y to v v' session_id pc_id found parsed taken =
      rw (found, type_from kind) (rw parsed (rw taken refl))

  -- If create_offer or create_answer finds its connection and libwebrtc makes the description, the call
  -- succeeds. A request that passes its answer on, to set the local or the remote description of any
  -- connection that is found, has libwebrtc read a description of the type that was made, an offer or
  -- an answer, from the text that it printed, and set it as the local or the remote description of
  -- that connection, as asked; and if libwebrtc does both, the request succeeds.
  pub create-set :
      (kind : Kind) (side : Side) (r : CreateSdpRequest) (s t : Server) (x y : Session)
      (pc to : PeerConnectionManager) (d d' : SessionDescription) (w v v' : World)
      (session_id pc_id : String)
      → find r.session_id r.peer_connection_id s ≡ (ok (x, pc), s)
      → webrtc_create kind pc.webrtc_peer_connection s.world ≡ (ok d, w)
      → find session_id pc_id t ≡ (ok (y, to), t)
      → session_description_new (type_of kind) (session_description_to_string d) t.world
        ≡ (ok d', v)
      → webrtc_set side to.webrtc_peer_connection d' v ≡ (ok tt, v')
      → (reply : CreateSdpResponse) × (create kind r s ≡ (ok reply, record s { world = w }))
        × (set side (passed_on reply session_id pc_id) t ≡ (
          ok (record { session_id = session_id; peer_connection_id = pc_id; success = true }),
          record t { world = v' },
        ))
  create-set kind side r s t x y pc to d d' w v v' session_id pc_id from made found parsed taken = (
    reply_of kind r d,
    create_reply kind r s x pc d w from made,
    set-passed_on kind side r d d' t y to v v' session_id pc_id found parsed taken,
  )
