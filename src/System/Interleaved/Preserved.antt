-- ===== src/System/Interleaved/Preserved.antt =====
-- Invariants of sessions over an interleaved history, from what the methods keep.
use load_test_server.Prelude.{◌≡◌, sym, ◌∙◌, subst, String, Option, some, List, [], ◌∷◌, All, arith}
use load_test_server.Log
use load_test_server.Session.{Session}
use load_test_server.Session.New.{IsNew}
use load_test_server.Data
use load_test_server.Data.{Server, lookup}
use load_test_server.Data.Laws.{Each}
use load_test_server.System.{create_session}
use load_test_server.System.Interleaved.{Point, request, Process, launch, move, interleave}
use load_test_server.System.Touch.{Change, Touch, keeps, changes, makes}
use load_test_server.System.Touch.Step.{move-Touch}
use load_test_server.Webrtc.{CreateSessionRequest}
use load_test_server.External.Platform.{Platform}

module _ ⦃P : Platform⦄ where
  open P use {World, by_name}
  open by_name use {get-empty}

  some-inj : {x y : Session} → some x ≡ some y → x ≡ y
  some-inj h = cc

  -- what the points of a history keep of each session, under the condition Good on them
  pub record Preserved (Good : Point → Type 0) (Q : String → Session → Type 0) : Type 0 where
    pub changed :
        (e : Point) (id : String) (x y : Session) → Good e → Change e id x y → Q id x → Q id y
    pub new :
        (e : Point) (r : CreateSessionRequest) (x : Session)
        → Good e
        → e ≡ request (create_session r)
        → IsNew r.session_id r.name r.polling_state_s (Log.from_i32 r.log_level) x
        → Q r.session_id x

  module _ {Good : Point → Type 0} {Q : String → Session → Type 0} (kept : Preserved Good Q) where
    Touch-Preserved :
        (e : Point) (id : String) (v v' : Option Session)
        → Good e
        → Touch e id v v'
        → ((x : Session) → v ≡ some x → Q id x)
        → (y : Session) → v' ≡ some y
        → Q id y
    Touch-Preserved e id v v' good (keeps same) h y found = h y (sym same ∙ found)
    Touch-Preserved e id v v' good (changes x x' before after c) h y found =
        subst (Q id) (some-inj (sym after ∙ found)) (kept.changed e id x x' good c (h x before))
    Touch-Preserved e id v v' good (makes r x asked names after n) h y found =
        subst (λ j. Q j y) names
          (subst (Q r.session_id) (some-inj (sym after ∙ found)) (kept.new e r x good asked n))

    pub move-Each : (e : Point) (p : Process) → Good e → Each Q p.server → Each Q (move e p).server
    move-Each e p good h = record {
      at = λ id.
          Touch-Preserved e id (lookup id p.server) (lookup id (move e p).server) good
            (move-Touch e id p) (h.at id);
    }

    pub interleave-Each :
        (es : List Point) (p : Process)
        → All Good es
        → Each Q p.server
        → Each Q (interleave es p).server
    unfolding interleave
    interleave-Each [] p good h = h
    interleave-Each (e ∷ es) p good h =
        interleave-Each es (move e p) good.1 (move-Each e p good.0 h)

  pub launch-Each : {Q : String → Session → Type 0} (w : World) → Each Q (launch w).server
  unfolding launch Data.new
  launch-Each w = record {
    at = λ id x found. absurd (ground (arith, found, get-empty {V = Session} id));
  }

  -- the session under an id is there, and satisfies R
  pub record At (id : String) (R : Session → Type 0) (s : Server) : Type 0 where
    pub session : Session
    pub found : lookup id s ≡ some session
    pub holds : R session

  module _ {Good : Point → Type 0} {id : String} {R : Session → Type 0}
      (changed : (e : Point) (x y : Session) → Good e → Change e id x y → R x → R y)
      (not_made : (e : Point) (r : CreateSessionRequest)
        → Good e
        → e ≡ request (create_session r)
        → r.session_id ≡ id
        → ⊥) where
    Touch-At :
        (e : Point) (s t : Server)
        → Good e
        → Touch e id (lookup id s) (lookup id t)
        → At id R s
        → At id R t
    Touch-At e s t good (keeps same) h = record {
      session = h.session;
      found = same ∙ h.found;
      holds = h.holds;
    }
    Touch-At e s t good (changes x y before after c) h = record {
      session = y;
      found = after;
      holds = changed e x y good c (subst R (some-inj (sym h.found ∙ before)) h.holds);
    }
    Touch-At e s t good (makes r x asked names after n) h = absurd (not_made e r good asked names)

    pub interleave-At :
        (es : List Point) (p : Process)
        → All Good es
        → At id R p.server
        → At id R (interleave es p).server
    unfolding interleave
    interleave-At [] p good h = h
    interleave-At (e ∷ es) p good h =
        interleave-At es (move e p) good.1
          (Touch-At e p.server (move e p).server good.0 (move-Touch e id p) h)
