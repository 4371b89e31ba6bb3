-- ===== src/Session/Kept.antt =====
-- src/session.rs: what an export leaves as it is.
use text.Mathlib.Text.{◌==◌ as str_eq}
use text.Mathlib.TextEquality.{eq_iff}
use load_test_server.Prelude.{
  ◌≡◌, refl, subst, inl, inr, Bool, String, Option, none, some, Bool-cases, Option-cases,
}
use load_test_server.Result.{Held}
use load_test_server.PeerConnection.{PeerConnectionManager}
use load_test_server.PeerConnection.Polling.Same.{Same, Same-refl, Same-trans, export_stats-Same}
use load_test_server.Session.{Session, export_at}
use load_test_server.External.Maps.{get-insert_text}
use load_test_server.External.Platform.{Platform}

module _ ⦃P : Platform⦄ where
  open P use {World, by_name}
  open by_name use {get, insert}

  -- the same connection but for its send and receive state, or none in both
  abbrev pub SameOption : Option PeerConnectionManager → Option PeerConnectionManager → Type 0
  SameOption none none = Unit
  SameOption (some a) (some b) = Same b a
  SameOption _ _ = ⊥

  SameOption-refl : (o : Option PeerConnectionManager) → SameOption o o
  SameOption-refl none = tt
  SameOption-refl (some a) = Same-refl a

  SameOption-trans :
      (a b c : Option PeerConnectionManager) → SameOption a b → SameOption b c → SameOption a c
  SameOption-trans none none none s t = tt
  SameOption-trans (some a) (some b) (some c) s t = Same-trans t s
  SameOption-trans none none (some c) s t = absurd t
  SameOption-trans none (some b) c s t = absurd s
  SameOption-trans (some a) none c s t = absurd s
  SameOption-trans (some a) (some b) none s t = absurd t

  -- everything of a session but the send and receive states of its connections
  pub record Kept (x y : Session) : Type 0 where
    pub same_id : y.id ≡ x.id
    pub same_name : y.name ≡ x.name
    pub same_source : y.video_source ≡ x.video_source
    pub same_polling : y.polling_state_s ≡ x.polling_state_s
    pub same_level : y.log_level ≡ x.log_level
    pub same_state : y.state ≡ x.state
    pub same_start : y.start_time ≡ x.start_time
    pub same_stop : y.stop_time ≡ x.stop_time
    pub same_pool : y.webrtc_pool ≡ x.webrtc_pool
    pub same_producer : y.frame_producer ≡ x.frame_producer
    pub connection :
        (pc_id : String) → SameOption (get x.peer_connections pc_id) (get y.peer_connections pc_id)

  pub Kept-refl : (x : Session) → Kept x x
  Kept-refl x = record {
    same_id = refl;
    same_name = refl;
    same_source = refl;
    same_polling = refl;
    same_level = refl;
    same_state = refl;
    same_start = refl;
    same_stop = refl;
    same_pool = refl;
    same_producer = refl;
    connection = λ pc_id. SameOption-refl (get x.peer_connections pc_id);
  }

  -- one connection is replaced by one that is the same but for its state
  insert-Kept :
      (pc_id : String) (x0 x : Session) (pc pc' : PeerConnectionManager)
      → Kept x0 x
      → get x.peer_connections pc_id ≡ some pc
      → Same pc' pc
      → Kept x0 (record x { peer_connections = insert x.peer_connections pc_id pc' })
  insert-Kept pc_id x0 x pc pc' h found same = record {
    same_id = h.same_id;
    same_name = h.same_name;
    same_source = h.same_source;
    same_polling = h.same_polling;
    same_level = h.same_level;
    same_state = h.same_state;
    same_start = h.same_start;
    same_stop = h.same_stop;
    same_pool = h.same_pool;
    same_producer = h.same_producer;
    connection = λ j.
        rw (get-insert_text by_name x.peer_connections pc_id j pc')
          (elim (Bool-cases (str_eq pc_id j)) [
            | inl e ↦
                let there : get x.peer_connections j ≡ some pc =
                  subst (λ k. get x.peer_connections k ≡ some pc) ((eq_iff pc_id j).0 e) found in
                let kept : SameOption (get x0.peer_connections j) (some pc) =
                  rw there at (h.connection j) in
                rw e (SameOption-trans (get x0.peer_connections j) (some pc) (some pc') kept same)
            | inr e ↦ rw e (h.connection j)
          ]);
  }

  pub export_at-Kept :
      (poll : Bool) (pc_id : String) (x0 : Session) (s : Held Session World)
      → Kept x0 s.item
      → Kept x0 (export_at poll pc_id s).item
  unfolding export_at
  export_at-Kept poll pc_id x0 s h = elim (Option-cases (get s.item.peer_connections pc_id)) [
    | inl missing ↦ rw (missing, export_at) h
    | inr (pc, found) ↦
        rw (found, export_at)
          (insert-Kept pc_id x0 s.item pc _ h found (export_stats-Same s.item.id poll _))
  ]
