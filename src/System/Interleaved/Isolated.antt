-- ===== src/System/Interleaved/Isolated.antt =====
-- The sessions that no request names, over an interleaved history.
use load_test_server.Prelude.{◌≡◌, ◌≢◌, sym, subst, String, some, List, All}
use load_test_server.Session.{Session}
use load_test_server.Session.Kept.{Kept, Kept-refl, export_at-Kept}
use load_test_server.Data.{lookup}
use load_test_server.System.Invariant.{target}
use load_test_server.System.Interleaved.{Point, request, task, Process, interleave}
use load_test_server.System.Interleaved.Preserved.{interleave-At}
use load_test_server.System.Touch.{Change, by_start, by_stop, by_make, by_take, by_export, held}
use load_test_server.External.Platform.{Platform}

-- a point that is no request to the session
abbrev pub Elsewhere : String → Point → Type 0
Elsewhere id (request r) = target r ≢ id
Elsewhere id (task k) = Unit

module _ ⦃P : Platform⦄ where
  Change-Kept :
      (id : String) (x0 : Session) (e : Point) (x y : Session)
      → Elsewhere id e
      → Change e id x y
      → Kept x0 x
      → Kept x0 y
  Change-Kept id x0 e x y away (by_start r w asked names made) h =
      absurd (subst (Elsewhere id) asked away names)
  Change-Kept id x0 e x y away (by_stop r w asked names made) h =
      absurd (subst (Elsewhere id) asked away names)
  Change-Kept id x0 e x y away (by_make r w asked names made) h =
      absurd (subst (Elsewhere id) asked away names)
  Change-Kept id x0 e x y away (by_take r pc asked names present made) h =
      absurd (subst (Elsewhere id) asked away names)
  Change-Kept id x0 e x y away (by_export poll pc_id w asked made) h =
      subst (Kept x0) (sym made) (export_at-Kept poll pc_id x0 (held x w) h)

  -- Whatever requests to other sessions come between any steps of the metrics task, a session in the
  -- map stays there, with all its fields and connections as they were but for the send and receive
  -- states of its connections.
  pub interleave-Kept :
      (es : List Point) (p : Process) (id : String) (x : Session)
      → All (Elsewhere id) es
      → lookup id p.server ≡ some x
      → (y : Session) × (lookup id (interleave es p).server ≡ some y) × Kept x y
  interleave-Kept es p id x away found =
      let after =
        interleave-At {Good = Elsewhere id} {id = id} {R = Kept x}
          (λ e a b good c h. Change-Kept id x e a b good c h)
          (λ e r good asked names. subst (Elsewhere id) asked good names) es p away
          (record { session = x; found = found; holds = Kept-refl x }) in
      (after.session, after.found, after.holds)
