-- ===== src/PeerConnection/Works.antt =====
-- src/peer_connection.rs: the calls on a connection when libwebrtc does not fail.
use load_test_server.Prelude.{◌≡◌, refl, String, Option, none, some, true, is_some}
use load_test_server.Result.Succeeds.{Succeeds, succeeds_rules}
use load_test_server.WebrtcPool.{WebrtcPool, WebrtcPoolItem}
use load_test_server.PeerConnection.{
  PeerConnectionManager, create_offer, create_answer, set_local_description, set_remote_description,
}
use load_test_server.PeerConnection.Media.{create_track, add_track, add_transceiver}
use load_test_server.External.Types.{SdpType}
use load_test_server.External.Reliable.{Negotiates}
use load_test_server.External.Platform.{Platform}

module _ ⦃P : Platform⦄ where
  open P use {by_id, VideoTrackSource}
  open by_id use {get}

  module _ (negotiates : Negotiates) where
    pub offer-Succeeds : (pc : PeerConnectionManager) → Succeeds (create_offer pc)
    unfolding create_offer
    offer-Succeeds pc = search (succeeds_rules, negotiates.offer_created)

    pub answer-Succeeds : (pc : PeerConnectionManager) → Succeeds (create_answer pc)
    unfolding create_answer
    answer-Succeeds pc = search (succeeds_rules, negotiates.answer_created)

    pub local-Succeeds :
        (pc : PeerConnectionManager) (t : SdpType) (text : String)
        → Succeeds (set_local_description pc t text)
    unfolding set_local_description
    local-Succeeds pc t text =
        search (succeeds_rules, negotiates.description_made, negotiates.local_set)

    pub remote-Succeeds :
        (pc : PeerConnectionManager) (t : SdpType) (text : String)
        → Succeeds (set_remote_description pc t text)
    unfolding set_remote_description
    remote-Succeeds pc t text =
        search (succeeds_rules, negotiates.description_made, negotiates.remote_set)

    module _ (pc : PeerConnectionManager) (pool : WebrtcPool)
        (has_factory : is_some (get pool.factory_list pc.pool_id) ≡ true)
        (source : VideoTrackSource) (label : String) where
      track-Succeeds : Succeeds (create_track pc.pool_id pool source label)
      unfolding create_track
      track-Succeeds = track_case (get pool.factory_list pc.pool_id) has_factory refl
        where
          track_case :
              (o : Option WebrtcPoolItem)
              → is_some o ≡ true
              → get pool.factory_list pc.pool_id ≡ o
              → Succeeds (create_track pc.pool_id pool source label)
          track_case none there e = absurd (cc there)
          track_case (some item) there e =
              rw (e, create_track) (search (succeeds_rules, negotiates.track_created))

      pub add_track-Succeeds : Succeeds (add_track pc pool source label)
      unfolding add_track
      add_track-Succeeds = search (succeeds_rules, track-Succeeds, negotiates.track_added)

      pub add_transceiver-Succeeds : Succeeds (add_transceiver pc pool source label)
      unfolding add_transceiver
      add_transceiver-Succeeds =
          search (succeeds_rules, track-Succeeds, negotiates.transceiver_added)
