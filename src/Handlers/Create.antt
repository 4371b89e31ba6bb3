-- ===== src/Handlers/Create.antt =====
-- src/handlers.rs: the branches of create_session.
use load_test_server.Prelude.{String, ◌≡◌, ap, ◌⊎◌, inl, inr}
use load_test_server.Result.{Result, ok, err, panic, Result-cases}
use load_test_server.Error.{ServerError, Status, status_from}
use load_test_server.Log
use load_test_server.Session
use load_test_server.Session.{Session}
use load_test_server.Session.New.{IsNew, new-IsNew}
use load_test_server.Data.{Server, lookup, write, drop_old}
use load_test_server.Handlers.Sessions.{create_session}
use load_test_server.Webrtc.{CreateSessionRequest, CreateSessionResponse}
use load_test_server.External.Platform.{Platform}

module _ ⦃P : Platform⦄ where
  open P use {World}

  -- the call of Session::new, and the world after it
  abbrev pub made : CreateSessionRequest → Server → Result ServerError Session × World
  made r s = Session.new r.session_id r.name r.polling_state_s (Log.from_i32 r.log_level) s.world

  -- The call succeeds just when a session can be made: then the session is the one asked for, and it
  -- is put under its id, where it replaces, and so drops, the session that was there. Otherwise the
  -- map of sessions is as it was.
  pub create_session_cases :
      (r : CreateSessionRequest) (s : Server)
      → ((x : Session) × ((made r s).0 ≡ ok x)
          × IsNew r.session_id r.name r.polling_state_s (Log.from_i32 r.log_level) x
          × (create_session r s ≡ (
            ok (record { session_id = r.session_id }),
            write r.session_id x (drop_old (lookup r.session_id s) (made r s).1) s,
          )))
        ⊎ ((e : ServerError) × ((made r s).0 ≡ err e)
            × (create_session r s ≡ (err (status_from e), record s { world = (made r s).1 })))
        ⊎ (((made r s).0 ≡ panic)
            × (create_session r s ≡ (panic, record s { world = (made r s).1 })))
  unfolding create_session
  create_session_cases r s = elim (Result-cases (made r s).0) [
    | inl (x, e) ↦
        let n = new-IsNew r.session_id r.name r.polling_state_s _ s.world x e in
        inl (
          x,
          e,
          n,
          rw (e, create_session)
              (ap
                (λ (id : String).
                  (let done : Result Status CreateSessionResponse × Server = (
                    ok (record { session_id = r.session_id }),
                    write id x (drop_old (lookup id s) (made r s).1) s,
                  ) in
                    done))
                n.same_id),
        )
    | inr (inl (x, e)) ↦ inr (inl (x, e, rw (e, create_session)))
    | inr (inr e) ↦ inr (inr (e, rw (e, create_session)))
  ]
