-- ===== src/Handlers/Observer/Stream.antt =====
-- src/handlers.rs: the stream that observer returns. Its loop selects one of two receivers at a time;
-- a turn is what the selected receiver gives, and a message or nothing is what the turn yields.
use load_test_server.Prelude.{
  ℕ, String, ◌≡◌, refl, ap, Option, none, some, List, [], ◌∷◌, ◌++◌, map,
}
use load_test_server.Webrtc.{ObserverMessage, ice_candidate, video_transceiver}
use load_test_server.External.Platform.{Platform}

module _ ⦃P : Platform⦄ where
  open P use {
    VideoTransceiver, video_mid, video_direction, direction_to_string, IceCandidate, candidate_sdp,
    candidate_sdp_mid, candidate_sdp_mline_index,
  }

  -- `track_rx.recv()` or `ice_rx.recv()`, whichever the select has taken; none from a closed channel
  pub data Selected : Type 0 where
    track : Option VideoTransceiver → Selected
    candidate : Option IceCandidate → Selected

  unfoldable pub track_message : VideoTransceiver → ObserverMessage
  track_message t =
      video_transceiver
        (record { mid = video_mid t; direction = direction_to_string (video_direction t) })

  unfoldable pub candidate_message : IceCandidate → ObserverMessage
  candidate_message c = ice_candidate (record {
    sdp = candidate_sdp c;
    mid = candidate_sdp_mid c;
    mline_index = candidate_sdp_mline_index c;
  })

  -- one turn of the loop: nothing from a closed channel is logged, and the loop goes on
  unfoldable pub observed : Selected → List ObserverMessage
  unfolding track_message candidate_message
  observed (track (some t)) = track_message t ∷ []
  observed (track none) = []
  observed (candidate (some c)) = candidate_message c ∷ []
  observed (candidate none) = []

  unfoldable pub messages : List Selected → List ObserverMessage
  unfolding observed
  messages [] = []
  messages (s ∷ turns) = observed s ++ messages turns

  -- What tokio's channels may give: a channel delivers what was sent in the order of sending, and after
  -- that, once its senders are gone, nothing. The lists are what is still to be delivered, before and
  -- after the turns.
  pub data Delivers
      : List VideoTransceiver
        → List IceCandidate
        → List Selected
        → List VideoTransceiver
        → List IceCandidate
        → Type 0 where
    stop : {ts : List VideoTransceiver} {cs : List IceCandidate} → Delivers ts cs [] ts cs
    a_track :
        {t : VideoTransceiver} {ts ts' : List VideoTransceiver} {cs cs' : List IceCandidate}
        {turns : List Selected}
        → Delivers ts cs turns ts' cs'
        → Delivers (t ∷ ts) cs (track (some t) ∷ turns) ts' cs'
    no_track :
        {ts' : List VideoTransceiver} {cs cs' : List IceCandidate} {turns : List Selected}
        → Delivers [] cs turns ts' cs'
        → Delivers [] cs (track none ∷ turns) ts' cs'
    a_candidate :
        {c : IceCandidate} {ts ts' : List VideoTransceiver} {cs cs' : List IceCandidate}
        {turns : List Selected}
        → Delivers ts cs turns ts' cs'
        → Delivers ts (c ∷ cs) (candidate (some c) ∷ turns) ts' cs'
    no_candidate :
        {ts ts' : List VideoTransceiver} {cs' : List IceCandidate} {turns : List Selected}
        → Delivers ts [] turns ts' cs'
        → Delivers ts [] (candidate none ∷ turns) ts' cs'

  -- what the messages of one kind say, in the order of the stream
  abbrev pub told_tracks : List ObserverMessage → List (String × String)
  told_tracks [] = []
  told_tracks (video_transceiver t ∷ ms) = (t.mid, t.direction) ∷ told_tracks ms
  told_tracks (ice_candidate c ∷ ms) = told_tracks ms

  abbrev pub told_candidates : List ObserverMessage → List (String × String × ℕ)
  told_candidates [] = []
  told_candidates (video_transceiver t ∷ ms) = told_candidates ms
  told_candidates (ice_candidate c ∷ ms) = (c.sdp, c.mid, c.mline_index) ∷ told_candidates ms

  -- what libwebrtc knows of a transceiver and of a candidate
  abbrev pub known_track : VideoTransceiver → String × String
  known_track t = (video_mid t, direction_to_string (video_direction t))

  abbrev pub known_candidate : IceCandidate → String × String × ℕ
  known_candidate c = (candidate_sdp c, candidate_sdp_mid c, candidate_sdp_mline_index c)

  -- However the select chooses, the stream tells the transceivers in the order in which they were sent
  -- and the candidates in theirs, none lost or repeated: what was told, followed by what is still in
  -- the channel, is what was sent. Of a transceiver it tells the mid and the direction, and of a
  -- candidate the sdp, the mid and the index of the media line, as libwebrtc gives them.
  pub messages-Delivers :
      (ts ts' : List VideoTransceiver) (cs cs' : List IceCandidate) (turns : List Selected)
      → Delivers ts cs turns ts' cs'
      → (told_tracks (messages turns) ++ map known_track ts' ≡ map known_track ts)
        × (told_candidates (messages turns) ++ map known_candidate cs' ≡ map known_candidate cs)
  unfolding messages observed track_message candidate_message
  messages-Delivers ts ts' cs cs' turns stop = (refl, refl)
  messages-Delivers (t ∷ ts) ts' cs cs' (s ∷ turns) (a_track d) =
      let (v, c) = messages-Delivers ts ts' cs cs' turns d in (ap (λ l. known_track t ∷ l) v, c)
  messages-Delivers ts ts' cs cs' (s ∷ turns) (no_track d) = messages-Delivers [] ts' cs cs' turns d
  messages-Delivers ts ts' (c ∷ cs) cs' (s ∷ turns) (a_candidate d) =
      let (v, e) = messages-Delivers ts ts' cs cs' turns d in (v, ap (λ l. known_candidate c ∷ l) e)
  messages-Delivers ts ts' cs cs' (s ∷ turns) (no_candidate d) =
      messages-Delivers ts ts' [] cs' turns d
