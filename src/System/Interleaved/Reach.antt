-- ===== src/System/Interleaved/Reach.antt =====
-- A turn of the metrics task over one session, as steps of the interleaved machine.
use load_test_server.Prelude.{
  ℕ, ◌%◌, ◌==◌, ◌≡◌, refl, sym, ap, ◌∙◌, inl, inr, Bool, String, Option, none, some, List, [], ◌∷◌,
  ◌++◌, map, Bool-cases,
}
use load_test_server.Result.{Result, Held, ok}
use load_test_server.Error.{ServerError}
use load_test_server.PeerConnection.{PeerConnectionManager}
use load_test_server.Session.{Session, export_at, export_each, export_peer_connection_stats}
use load_test_server.Data.{Server, lookup, write}
use load_test_server.Collection.{collect_session}
use load_test_server.System.Interleaved.{
  Task, task, enter, export, leave, Turn, Process, move, interleave, advance, enter_session,
  export_connection,
}
use load_test_server.External.Platform.{Platform}

module _ ⦃P : Platform⦄ where
  open P use {World, by_name}
  open by_name use {Map, entries, get-insert_self, insert-get, insert-insert}

  abbrev pub standing : Option (String × Bool) → ℕ → Server → Process
  standing v elapsed s = record {
    server = s;
    collector = some (record { elapsed = elapsed; visiting = v });
  }

  abbrev pub ended : Server → Process
  ended s = record { server = s; collector = none }

  pub interleave-tasks :
      (ks js : List Task) (p : Process)
      → interleave (map task (ks ++ js)) p ≡ interleave (map task js) (interleave (map task ks) p)
  unfolding interleave
  interleave-tasks [] js p = refl
  interleave-tasks (k ∷ ks) js p = interleave-tasks ks js (move (task k) p)

  -- after the end of the task its steps change nothing
  pub interleave-ended :
      (ks : List Task) (s : Server) → interleave (map task ks) (ended s) ≡ ended s
  unfolding interleave move
  interleave-ended [] s = refl
  interleave-ended (k ∷ ks) s = interleave-ended ks s

  -- the steps over one session: into it, over its connections in the order of the map, and out
  abbrev pub visit : String × Session → List Task
  visit e = enter e.0 ∷ map (λ d. export d.0) (entries e.1.peer_connections) ++ leave ∷ []

  abbrev with_sessions : Map Session → World → Server
  with_sessions m w = record { item = record { sessions = m }; world = w }

  write-lookup :
      (id : String) (x : Session) (s : Server) → lookup id s ≡ some x → write id x s.world s ≡ s
  write-lookup id x s found =
      ap (λ m. with_sessions m s.world) (insert-get s.item.sessions id x found)

  write-write :
      (id : String) (x y : Session) (w v : World) (s : Server)
      → write id y v (write id x w s) ≡ write id y v s
  write-write id x y w v s = ap (λ m. with_sessions m v) (insert-insert s.item.sessions id x y)

  abbrev exported : Bool → String → Session → World → Held Session World
  exported poll pc_id x w = export_at poll pc_id (record { item = x; world = w })

  export_connection-write :
      (id : String) (poll : Bool) (pc_id : String) (x : Session) (w : World) (s : Server)
      → export_connection id poll pc_id (write id x w s)
        ≡ (let t = exported poll pc_id x w in write id t.item t.world s)
  unfolding export_connection
  export_connection-write id poll pc_id x w s =
      rw (get-insert_self s.item.sessions id x, export_connection)
        (write-write id x (exported poll pc_id x w).item w (exported poll pc_id x w).world s)

  exports-all :
      (elapsed : ℕ) (id : String) (poll : Bool) (l : List (String × PeerConnectionManager))
      (x : Session) (w : World) (s : Server)
      → let t = export_each poll (map (λ e. e.0) l) (record { item = x; world = w }) in
        interleave
          (map task (map (λ e. export e.0) l))
          (standing (some (id, poll)) elapsed (write id x w s))
        ≡ standing (some (id, poll)) elapsed (write id t.item t.world s)
  unfolding interleave move advance export_each
  exports-all elapsed id poll [] x w s = refl
  exports-all elapsed id poll ((pc_id, pc) ∷ l) x w s =
      ap
        (λ t.
          interleave (map task (map (λ e. export e.0) l)) (standing (some (id, poll)) elapsed t))
        (export_connection-write id poll pc_id x w s)
      ∙ exports-all elapsed id poll l (exported poll pc_id x w).item (exported poll pc_id x w).world
          s

  -- how the task stands after a part of a turn
  abbrev pub after : ℕ → Result ServerError (Unit {0}) × Server → Process
  after elapsed (ok _, s) = standing none elapsed s
  after elapsed (_, s) = ended s

  enter-move :
      (elapsed : ℕ) (id : String) (s : Server) (c : Option Turn)
      → enter_session elapsed id s ≡ c
      → move (task (enter id)) (standing none elapsed s) ≡ record { server = s; collector = c }
  unfolding move advance
  enter-move elapsed id s c e = ap (λ (c : Option Turn). record { server = s; collector = c }) e

  leave-move :
      (elapsed : ℕ) (v : Option (String × Bool)) (s : Server)
      → interleave (map task (leave ∷ [])) (standing v elapsed s) ≡ standing none elapsed s
  unfolding interleave move advance
  leave-move elapsed v s = refl

  -- from inside a session over its connections and out
  visit-inside :
      (elapsed : ℕ) (id : String) (poll : Bool) (x : Session) (s : Server)
      → lookup id s ≡ some x
      → let t = export_peer_connection_stats poll (record { item = x; world = s.world }) in
        interleave
          (map task (map (λ d. export d.0) (entries x.peer_connections) ++ leave ∷ []))
          (standing (some (id, poll)) elapsed s)
        ≡ standing none elapsed (write id t.item t.world s)
  unfolding export_peer_connection_stats
  visit-inside elapsed id poll x s found =
      let l = entries x.peer_connections in
      let ks : List Task = map (λ d. export d.0) l in
      interleave-tasks ks (leave ∷ []) (standing (some (id, poll)) elapsed s)
      ∙ ap (interleave (map task (leave ∷ []))) (
          ap (λ u. interleave (map task ks) (standing (some (id, poll)) elapsed u))
            (sym (write-lookup id x s found))
          ∙ exports-all elapsed id poll l x s.world s)
      ∙ leave-move elapsed (some (id, poll)) _

  visit-entered :
      (elapsed : ℕ) (id : String) (x : Session) (s : Server) (c : Option Turn)
      → enter_session elapsed id s ≡ c
      → interleave (map task (visit (id, x))) (standing none elapsed s)
        ≡ interleave
            (map task (map (λ d. export d.0) (entries x.peer_connections) ++ leave ∷ []))
            (record { server = s; collector = c })
  unfolding interleave
  visit-entered elapsed id x s c e =
      ap (interleave (map task (map (λ d. export d.0) (entries x.peer_connections) ++ leave ∷ [])))
        (enter-move elapsed id s c e)

  pub interleave-visit :
      (elapsed : ℕ) (id : String) (x : Session) (s : Server)
      → lookup id s ≡ some x
      → interleave (map task (visit (id, x))) (standing none elapsed s)
        ≡ after elapsed (collect_session elapsed id s)
  unfolding enter_session collect_session
  interleave-visit elapsed id x s found = elim (Bool-cases (x.polling_state_s == 0)) [
    | inl zero_interval ↦
        rw (found, collect_session, zero_interval)
          (visit-entered elapsed id x s none (rw (found, enter_session) (rw zero_interval refl))
            ∙ interleave-ended _ s)
    | inr nonzero ↦
        rw (found, collect_session, nonzero)
          (visit-entered elapsed id x s _ (rw (found, enter_session) (rw nonzero refl))
            ∙ visit-inside elapsed id (elapsed % x.polling_state_s == 0) x s found)
  ]
