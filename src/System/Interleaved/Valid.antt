-- ===== src/System/Interleaved/Valid.antt =====
-- The well-formedness of sessions over an interleaved history.
use load_test_server.Prelude.{sym, subst, String, List, [], ◌∷◌, All}
use load_test_server.Session.{Session}
use load_test_server.Session.Lifecycle.{starts, stops}
use load_test_server.Session.Valid.{IsValid, call_op-IsValid, export_at-IsValid, insert-IsValid}
use load_test_server.Data.Laws.{Each}
use load_test_server.Handlers.Valid.{
  make_peer_connection-IsValid, take_receivers-IsServed, IsNew-IsValid,
}
use load_test_server.System.Interleaved.{Point, launch, interleave}
use load_test_server.System.Interleaved.Preserved.{Preserved, interleave-Each, launch-Each}
use load_test_server.System.Touch.{Change, by_start, by_stop, by_make, by_take, by_export, held}
use load_test_server.External.Platform.{Platform}

abbrev Any : Point → Type 0
Any e = Unit {0}

All-Any : (es : List Point) → All Any es
All-Any [] = tt
All-Any (e ∷ es) = (tt, All-Any es)

module _ ⦃P : Platform⦄ where
  open P use {World}

  Change-IsValid :
      (e : Point) (id : String) (x y : Session) → Change e id x y → IsValid id x → IsValid id y
  Change-IsValid e id x y (by_start r w asked names made) h =
      subst (IsValid id) (sym made) (call_op-IsValid starts id (held x w) h)
  Change-IsValid e id x y (by_stop r w asked names made) h =
      subst (IsValid id) (sym made) (call_op-IsValid stops id (held x w) h)
  Change-IsValid e id x y (by_make r w asked names made) h =
      subst (IsValid id) (sym made)
        (make_peer_connection-IsValid id r.peer_connection_id r.name (held x w) h)
  Change-IsValid e id x y (by_take r pc asked names present made) h =
      subst (IsValid id) (sym made) (
        insert-IsValid id r.peer_connection_id _ x h (
          take_receivers-IsServed x.webrtc_pool r.peer_connection_id pc
            (h.served r.peer_connection_id pc present)))
  Change-IsValid e id x y (by_export poll pc_id w asked made) h =
      subst (IsValid id) (sym made) (export_at-IsValid poll id pc_id (held x w) h)

  IsValid-Preserved : Preserved Any IsValid
  IsValid-Preserved = record {
    changed = λ e id x y good c h. Change-IsValid e id x y c h;
    new = λ e r x good asked n. IsNew-IsValid r x n;
  }

  -- From the start of the server on, with requests between any two steps of the metrics task, every
  -- session in the map is valid.
  pub interleave-launch-IsValid :
      (w : World) (es : List Point) → Each IsValid (interleave es (launch w)).server
  interleave-launch-IsValid w es =
      interleave-Each IsValid-Preserved es (launch w) (All-Any es) (launch-Each w)
