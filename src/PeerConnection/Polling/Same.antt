-- ===== src/PeerConnection/Polling/Same.antt =====
-- src/peer_connection.rs: the fields of a connection other than its send and receive state.
use load_test_server.Prelude.{String, ◌≡◌, Bool, true, false, List, [], ◌∷◌, arith}
use load_test_server.Result.{Result, Exec, Held, ok, err, panic, on_world, fallible, continue}
use load_test_server.Error.{ServerError}
use load_test_server.PeerConnection.{PeerConnectionManager, webrtc}
use load_test_server.PeerConnection.Polling.{
  set_send_state, set_receive_state, export_receivers, export_senders, export_lists, export_stats,
}
use load_test_server.External.Types.{VideoReceiverStats, VideoSenderStats, PeerConnectionStats}
use load_test_server.External.Platform.{Platform}

module _ ⦃P : Platform⦄ where
  open P use {World, Number, webrtc_get_stats}

  pub record Same (a b : PeerConnectionManager) : Type 0 where
    pub same_id : a.id ≡ b.id
    pub same_name : a.name ≡ b.name
    pub same_connection : a.webrtc_peer_connection ≡ b.webrtc_peer_connection
    pub same_pool_id : a.pool_id ≡ b.pool_id
    pub same_connection_state_rx : a.connection_state_rx ≡ b.connection_state_rx
    pub same_ice_candidates_rx : a.ice_candidates_rx ≡ b.ice_candidates_rx
    pub same_video_track_rx : a.video_track_rx ≡ b.video_track_rx

  pub Same-refl : (a : PeerConnectionManager) → Same a a
  Same-refl a = ground arith

  pub Same-trans : {a b c : PeerConnectionManager} → Same a b → Same b c → Same a c
  Same-trans s t = ground arith

  Same-send :
      (stat : VideoSenderStats Number) (a : PeerConnectionManager) → Same (set_send_state stat a) a
  unfolding set_send_state
  Same-send stat a = ground arith

  Same-receive :
      (stat : VideoReceiverStats Number) (a : PeerConnectionManager)
      → Same (set_receive_state stat a) a
  unfolding set_receive_state
  Same-receive stat a = ground arith

  Same-receivers :
      (pc_id session_id : String) (poll : Bool) (stats : List (VideoReceiverStats Number))
      (s : Held PeerConnectionManager World)
      → Same (export_receivers pc_id session_id poll stats s).item s.item
  unfolding export_receivers
  Same-receivers pc_id session_id poll [] s = Same-refl s.item
  Same-receivers pc_id session_id true (stat ∷ stats) s =
      Same-trans (Same-receivers pc_id session_id true stats _) (Same-receive stat s.item)
  Same-receivers pc_id session_id false (stat ∷ stats) s =
      Same-receivers pc_id session_id false stats _

  Same-senders :
      (pc_id session_id : String) (poll : Bool) (stats : List (VideoSenderStats Number))
      (s : Held PeerConnectionManager World)
      → Same (export_senders pc_id session_id poll stats s).item s.item
  unfolding export_senders
  Same-senders pc_id session_id poll [] s = Same-refl s.item
  Same-senders pc_id session_id true (stat ∷ stats) s =
      Same-trans (Same-senders pc_id session_id true stats _) (Same-send stat s.item)
  Same-senders pc_id session_id false (stat ∷ stats) s = Same-senders pc_id session_id false stats _

  Same-continue :
      {A B : Type 0} (r : Result ServerError A)
      (f : A → Exec (Held PeerConnectionManager World) ServerError B)
      (t : Held PeerConnectionManager World)
      → ((a : A) → Same (f a t).1.item t.item)
      → Same (continue r f t).1.item t.item
  Same-continue (ok a) f t h = h a
  Same-continue (err e) f t h = Same-refl t.item
  Same-continue panic f t h = Same-refl t.item

  Same-export_lists :
      (pc_id session_id : String) (poll : Bool) (stats : PeerConnectionStats Number)
      (s : Held PeerConnectionManager World)
      → Same (export_lists pc_id session_id poll stats s).1.item s.item
  unfolding export_lists
  Same-export_lists pc_id session_id poll stats s =
      Same-trans (Same-senders pc_id session_id poll stats.video_sender_stats _)
        (Same-receivers pc_id session_id poll stats.video_receiver_stats s)

  pub export_stats-Same :
      (session_id : String) (poll : Bool) (s : Held PeerConnectionManager World)
      → Same (export_stats session_id poll s).1.item s.item
  unfolding export_stats
  export_stats-Same session_id poll s =
      let (r, t) =
        on_world (webrtc (fallible (webrtc_get_stats s.item.webrtc_peer_connection))) s in
      Same-continue r (export_lists s.item.id session_id poll) t
        λ stats. Same-export_lists s.item.id session_id poll stats t
