-- ===== src/Handlers/Reading.antt =====
-- src/handlers.rs: the procedures that read the map of sessions.
use load_test_server.Prelude.{String, arith}
use load_test_server.Result.Keeps.{Keeps, keeps_rules}
use load_test_server.Session.{Session}
use load_test_server.Data.Laws.{Keeps-get_session}
use load_test_server.Webrtc.{CreateSdpRequest, SetSdpRequest, AddTrackRequest, ObserverRequest}
use load_test_server.Handlers.PeerConnections.{
  find, create_offer, create_answer, set_local_description, set_remote_description, add_track,
  add_transceiver,
}
use load_test_server.Handlers.Observer.{find_in, get_transceivers}
use load_test_server.External.Platform.{Platform}

module _ ⦃P : Platform⦄ where
  pub Keeps-find : (session_id pc_id : String) → Keeps (find session_id pc_id)
  unfolding find
  Keeps-find session_id pc_id = search (keeps_rules, Keeps-get_session)

  pub Keeps-create_offer : (r : CreateSdpRequest) → Keeps (create_offer r)
  unfolding create_offer
  Keeps-create_offer r = search (keeps_rules, Keeps-find)

  pub Keeps-create_answer : (r : CreateSdpRequest) → Keeps (create_answer r)
  unfolding create_answer
  Keeps-create_answer r = search (keeps_rules, Keeps-find)

  pub Keeps-set_local_description : (r : SetSdpRequest) → Keeps (set_local_description r)
  unfolding set_local_description
  Keeps-set_local_description r = search (keeps_rules, Keeps-find)

  pub Keeps-set_remote_description : (r : SetSdpRequest) → Keeps (set_remote_description r)
  unfolding set_remote_description
  Keeps-set_remote_description r = search (keeps_rules, Keeps-find)

  pub Keeps-add_track : (r : AddTrackRequest) → Keeps (add_track r)
  unfolding add_track
  Keeps-add_track r = search (keeps_rules, Keeps-find)

  pub Keeps-add_transceiver : (r : AddTrackRequest) → Keeps (add_transceiver r)
  unfolding add_transceiver
  Keeps-add_transceiver r = search (keeps_rules, Keeps-find)

  pub Keeps-find_in : (pc_id : String) (session : Session) → Keeps (find_in pc_id session)
  unfolding find_in
  Keeps-find_in pc_id session = record { same = λ s. ground arith }

  pub Keeps-get_transceivers : (r : ObserverRequest) → Keeps (get_transceivers r)
  unfolding get_transceivers
  Keeps-get_transceivers r = search (keeps_rules, Keeps-get_session, Keeps-find_in)
