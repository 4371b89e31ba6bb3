-- ===== src/Tests/Streams.antt =====
-- A concrete run of the stream of an observer.
use load_test_server.Prelude.{◌≡◌, none, some, List, [], ◌∷◌, ◌++◌, map}
use load_test_server.Handlers.Observer.Stream.{
  Selected, track, candidate, Delivers, stop, a_track, no_track, a_candidate, messages, told_tracks,
  told_candidates, known_track, known_candidate, messages-Delivers,
}
use load_test_server.Tests.{toy}

-- two transceivers and a candidate in turn, with one candidate left
abbrev turns : List Selected
turns = track (some 1) ∷ candidate (some 5) ∷ track (some 2) ∷ track none ∷ []

delivered : Delivers (1 ∷ 2 ∷ []) (5 ∷ 6 ∷ []) turns [] (6 ∷ [])
delivered = a_track (a_candidate (a_track (no_track stop)))

messages-Delivers_example :
    (told_tracks (messages turns) ++ [] ≡ map known_track (1 ∷ 2 ∷ []))
    × (told_candidates (messages turns) ++ map known_candidate (6 ∷ [])
        ≡ map known_candidate (5 ∷ 6 ∷ []))
messages-Delivers_example = messages-Delivers (1 ∷ 2 ∷ []) [] (5 ∷ 6 ∷ []) (6 ∷ []) turns delivered
