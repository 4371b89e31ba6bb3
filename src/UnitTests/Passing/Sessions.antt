-- ===== src/UnitTests/Passing/Sessions.antt =====
-- src/session.rs, src/data.rs: the unit tests of sessions when libwebrtc does not fail.
use text.Mathlib.Text.{◌==◌ as str_eq}
use load_test_server.Prelude.{◌≡◌, refl, ap, String, some}
use load_test_server.Result.{call, pure, unwrap, ◌>>=◌}
use load_test_server.Result.Ends.{Ends, Ends-call, Ends-bind, Ends-unwrap, Succeeds-Ends}
use load_test_server.Result.Succeeds.{Succeeds}
use load_test_server.Error.{ServerError}
use load_test_server.Log.{LogLevel}
use load_test_server.Session
use load_test_server.Session.{Session, created, started}
use load_test_server.Session.New.{new-IsNew}
use load_test_server.Session.Made.{session-Succeeds}
use load_test_server.Data
use load_test_server.Data.{Data, Server, add_session}
use load_test_server.UnitTests.{on_held}
use load_test_server.UnitTests.Sessions.{new_session, started_session}
use load_test_server.External.Reliable.{Reliable}
use load_test_server.External.Platform.{Platform}

module _ ⦃P : Platform⦄ where
  open P use {World, Number, by_name, nanoid, now, tracing_init}
  open by_name use {get, get-insert_self}

  -- a server with a session under the id, which has not been started
  record IsStored (made : String × Data) : Type 0 where
    session : Session
    found : get made.1.sessions made.0 ≡ some session
    same_id : session.id ≡ made.0
    is_created : session.state ≡ created

  -- a session that was started just before
  pub record IsStarted (session : Session) (after : World) : Type 0 where
    pub before : World
    pub is_started : session.state ≡ started
    pub start_time : session.start_time ≡ some (now before).0
    pub moment : after ≡ (now before).1

  module _ (reliable : Reliable) where
    add_session-IsStored :
        (session : Session) (w : World)
        → session.state ≡ created
        → Ends {E = ServerError}
            (unwrap (on_held (add_session session) Data.new) >>= λ added.
              pure (session.id, added.1))
            w
            (λ made t. IsStored made)
    unfolding add_session
    add_session-IsStored session w is_created =
        let t : Server = (add_session session (record { item = Data.new; world = w })).1 in
        record {
          result = (session.id, t.item);
          after = t.world;
          runs = refl;
          holds = record {
            session = session;
            found = get-insert_self _ session.id session;
            same_id = refl;
            is_created = is_created;
          };
        }

    new_session-IsStored : (w : World) → Ends new_session w (λ made t. IsStored made)
    unfolding new_session
    new_session-IsStored w =
        Ends-bind (call nanoid) _ w (Ends-call {Q = λ id v. Unit} nanoid w tt) (λ id v _.
          let new = Session.new id "New Session" 1 LogLevel.none in
          Ends-bind (unwrap new) _ v
            (Ends-unwrap new v
              (Succeeds-Ends new v (session-Succeeds reliable id "New Session" 1 LogLevel.none)))
            (λ session t e.
              let is_new = new-IsNew id "New Session" 1 LogLevel.none v session (ap (λ r. r.0) e) in
              add_session-IsStored session t is_new.is_created))

    start-IsStarted :
        (session : Session) (w : World)
        → session.state ≡ created
        → Ends {E = ServerError}
            (unwrap (on_held Session.start session) >>= λ done. pure done.1)
            w
            IsStarted
    unfolding Session.start
    start-IsStarted session w is_created = rw is_created (record {
      result = record session { state = started; start_time = some (now w).0 };
      after = (now w).1;
      runs = refl;
      holds = record { before = w; is_started = refl; start_time = refl; moment = refl };
    })

    pub started_session-IsStarted : (w : World) → Ends started_session w IsStarted
    started_session-IsStarted w =
        Ends-bind new_session _ w (new_session-IsStored w)
          (λ made t there. rw there.found (start-IsStarted there.session t there.is_created))
