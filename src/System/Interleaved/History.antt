-- ===== src/System/Interleaved/History.antt =====
-- The life cycle of one session as the specification of the server over an interleaved history.
use load_test_server.Prelude.{
  ◌≡◌, refl, sym, ap, ◌∙◌, Bool, String, Option, none, some, List, [], ◌∷◌,
}
use load_test_server.Session.{Session}
use load_test_server.Data
use load_test_server.Data.{Server, lookup}
use load_test_server.System.{Event}
use load_test_server.System.Lifecycle.{state_of, view}
use load_test_server.System.History.{follow, replay, can_make, view-handle}
use load_test_server.System.Turns.{export_at_state}
use load_test_server.System.Interleaved.{
  Point, request, Task, task, Process, launch, move, interleave,
}
use load_test_server.System.Touch.{
  Change, by_start, by_stop, by_make, by_take, by_export, held, Touch, keeps, changes, makes,
}
use load_test_server.System.Touch.Step.{advance-Touch}
use load_test_server.External.Platform.{Platform}

-- a point as the life cycle sees it
abbrev pub event_of : Point → Event
event_of (request r) = Event.request r
event_of (task k) = Event.tick

module _ ⦃P : Platform⦄ where
  open P use {World, by_name}
  open by_name use {get-empty}

  Change-view :
      (k : Task) (id : String) (x y : Session) → Change (task k) id x y → y.state ≡ x.state
  Change-view k id x y (by_start r w asked names made) = cc
  Change-view k id x y (by_stop r w asked names made) = cc
  Change-view k id x y (by_make r w asked names made) = cc
  Change-view k id x y (by_take r pc asked names present made) = cc
  Change-view k id x y (by_export poll pc_id w asked made) =
      ap (λ (z : Session). z.state) made ∙ export_at_state poll pc_id (held x w)

  Touch-view :
      (k : Task) (id : String) (v v' : Option Session)
      → Touch (task k) id v v'
      → state_of v' ≡ state_of v
  Touch-view k id v v' (keeps same) = ap state_of same
  Touch-view k id v v' (changes x y before after c) =
      ap state_of after ∙ ap some (Change-view k id x y c) ∙ sym (ap state_of before)
  Touch-view k id v v' (makes r x asked names after n) = cc

  view-move :
      (e : Point) (id : String) (p : Process)
      → view id (move e p).server
        ≡ follow id (can_make (event_of e) p.server, event_of e) (view id p.server)
  unfolding move
  view-move (request r) id p = view-handle id r p.server
  view-move (task k) id p = Touch-view k id _ _ (advance-Touch k p.collector id p)

  -- the points of a history, each with whether a session could be made then
  abbrev pub point_trace : List Point → Process → List (Bool × Event)
  point_trace [] p = []
  point_trace (e ∷ es) p = (can_make (event_of e) p.server, event_of e) ∷ point_trace es (move e p)

  view-interleave :
      (es : List Point) (id : String) (p : Process)
      → view id (interleave es p).server ≡ replay id (point_trace es p) (view id p.server)
  unfolding interleave
  view-interleave [] id p = refl
  view-interleave (e ∷ es) id p =
      view-interleave es id (move e p)
      ∙ ap (replay id (point_trace es (move e p))) (view-move e id p)

  view-launch : (id : String) (w : World) → view id (launch w).server ≡ none
  unfolding launch Data.new
  view-launch id w = ap state_of (get-empty id)

  -- From the start of the server on, with requests between any two steps of the metrics task, what a
  -- client can tell of a session, whether it is there and in which state, is what the life cycle makes
  -- of the requests, given for each create_session whether libwebrtc could provide what it needs.
  pub view-interleave-launch :
      (es : List Point) (id : String) (w : World)
      → view id (interleave es (launch w)).server ≡ replay id (point_trace es (launch w)) none
  view-interleave-launch es id w =
      view-interleave es id (launch w)
      ∙ ap (replay id (point_trace es (launch w))) (view-launch id w)
