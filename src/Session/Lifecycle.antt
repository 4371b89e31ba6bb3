-- ===== src/Session/Lifecycle.antt =====
-- src/session.rs: the life cycle of a session.
use load_test_server.Prelude.{
  is_some, ℕ, ◌-◌, ◌/◌, ◌≡◌, refl, ◌⊎◌, Bool, true, false, Option, none, some, List, [], ◌∷◌, arith,
  ltb, if◌then◌else◌,
}
use load_test_server.Result.{Result, Exec, Held, ok, err}
use load_test_server.Error.{ServerError, invalid_state_error}
use load_test_server.Helpers.{nanos_per_sec}
use load_test_server.Session.{
  Session, SessionState, created, started, stopped, start, stop, elapsed_time,
}
use load_test_server.External.Platform.{Platform}

-- the two operations on the state
pub data Op : Type 0 where
  starts stops : Op

-- the state that the life cycle allows next, if any
abbrev pub next : Op → SessionState → Option SessionState
next starts created = some started
next stops started = some stopped
next starts _ = none
next stops _ = none

abbrev pub refusal : Op → ServerError
refusal starts = invalid_state_error "Only a created session can be started"
refusal stops = invalid_state_error "Only a started session can be stopped"

abbrev pub has_started : SessionState → Bool
has_started created = false
has_started _ = true

abbrev pub has_stopped : SessionState → Bool
has_stopped stopped = true
has_stopped _ = false

module _ ⦃P : Platform⦄ where
  open P use {World, now}

  abbrev pub call_op : Op → Exec (Held Session World) ServerError (Unit {0})
  call_op starts = start
  call_op stops = stop

  -- there is a start time from the start on, and a stop time from the stop on
  pub record IsTimed (session : Session) : Type 0 where
    pub start_known : is_some session.start_time ≡ has_started session.state
    pub stop_known : is_some session.stop_time ≡ has_stopped session.state

  -- what is not state or time
  abbrev pub SameRest : Session → Session → Type 0
  SameRest a b =
      (a.id ≡ b.id)
      × (a.name ≡ b.name)
      × (a.peer_connections ≡ b.peer_connections)
      × (a.video_source ≡ b.video_source)
      × (a.log_level ≡ b.log_level)
      × (a.webrtc_pool ≡ b.webrtc_pool)
      × (a.polling_state_s ≡ b.polling_state_s)
      × (a.frame_producer ≡ b.frame_producer)

  -- how an operation ends, given the state that is allowed next
  abbrev pub Ends :
      Op
      → Option SessionState
      → Held Session World
      → Result ServerError (Unit {0}) × Held Session World
      → Type 0
  Ends op none s r = r ≡ (err (refusal op), s)
  Ends op (some state) s r = (r.0 ≡ ok tt) × (r.1.item.state ≡ state) × SameRest r.1.item s.item

  Ends-at :
      (op : Op) (s : Held Session World) (state : SessionState)
      → s.item.state ≡ state
      → Ends op (next op state) s (call_op op s)
  unfolding start stop
  Ends-at starts s created e = ground arith
  Ends-at starts s started e = ground arith
  Ends-at starts s stopped e = ground arith
  Ends-at stops s created e = ground arith
  Ends-at stops s started e = ground arith
  Ends-at stops s stopped e = ground arith

  -- Start and stop implement the life cycle: where it allows the operation, the call succeeds, goes
  -- to the next state and changes nothing of the session but its state and times; where it does not,
  -- the call fails with its message and changes nothing at all.
  pub call_op-Ends :
      (op : Op) (s : Held Session World) → Ends op (next op s.item.state) s (call_op op s)
  call_op-Ends op s = Ends-at op s s.item.state refl

  -- Both keep the times as the state says.
  pub call_op-IsTimed :
      (op : Op) (s : Held Session World) → IsTimed s.item → IsTimed (call_op op s).1.item
  unfolding start stop
  call_op-IsTimed starts s h = ground arith
  call_op-IsTimed stops s h = ground arith

  -- the operations of a sequence that succeed, and the session in the end
  abbrev outcome :
      Op
      → Result ServerError (Unit {0}) × Held Session World
      → (Held Session World → List Op × Held Session World)
      → List Op × Held Session World
  outcome op (ok _, t) rest = let (done, u) = rest t in (op ∷ done, u)
  outcome op (_, t) rest = rest t

  abbrev pub run : List Op → Held Session World → List Op × Held Session World
  run [] s = ([], s)
  run (op ∷ ops) s = outcome op (call_op op s) (run ops)

  -- all that can succeed from a state on
  abbrev pub Allowed : SessionState → List Op → SessionState → Type 0
  Allowed created done final =
      ((done ≡ []) × (final ≡ created))
      ⊎ ((done ≡ starts ∷ []) × (final ≡ started))
      ⊎ ((done ≡ starts ∷ stops ∷ []) × (final ≡ stopped))
  Allowed started done final =
      ((done ≡ []) × (final ≡ started)) ⊎ ((done ≡ stops ∷ []) × (final ≡ stopped))
  Allowed stopped done final = (done ≡ []) × (final ≡ stopped)

  run-Allowed :
      (ops : List Op) (s : Held Session World) (state : SessionState)
      → s.item.state ≡ state
      → let (done, t) = run ops s in Allowed state done t.item.state
  unfolding start stop
  run-Allowed [] s created e = ground arith
  run-Allowed [] s started e = ground arith
  run-Allowed [] s stopped e = ground arith
  run-Allowed (starts ∷ ops) s created e =
      ground (arith, run-Allowed ops (start s).1 started (ground arith))
  run-Allowed (starts ∷ ops) s started e = ground (arith, run-Allowed ops s started e)
  run-Allowed (starts ∷ ops) s stopped e = ground (arith, run-Allowed ops s stopped e)
  run-Allowed (stops ∷ ops) s created e = ground (arith, run-Allowed ops s created e)
  run-Allowed (stops ∷ ops) s started e =
      ground (arith, run-Allowed ops (stop s).1 stopped (ground arith))
  run-Allowed (stops ∷ ops) s stopped e = ground (arith, run-Allowed ops s stopped e)

  -- Of any sequence of starts and stops of a created session, what succeeds is nothing, or one start,
  -- or one start and then one stop; and the session ends in the state that belongs to it.
  pub run_created :
      (ops : List Op) (s : Held Session World)
      → s.item.state ≡ created
      → let (done, t) = run ops s in
        ((done ≡ []) × (t.item.state ≡ created))
        ⊎ ((done ≡ starts ∷ []) × (t.item.state ≡ started))
        ⊎ ((done ≡ starts ∷ stops ∷ []) × (t.item.state ≡ stopped))
  run_created ops s e = run-Allowed ops s created e

  -- The elapsed time of a created session is none, and the clock is not read; of a started session it
  -- is measured up to the clock; and of a stopped session it is the time from the start to the stop in
  -- whole seconds, whatever the clock says since. There is none if the clock went back in between.
  pub elapsed_after :
      (s : Held Session World) (w : World)
      → s.item.state ≡ created
      → let s1 = (start s).1 in
        let s2 = (stop s1).1 in
        let started_at = (now s.world).0 in
        let stopped_at = (now s1.world).0 in
        let seconds = λ (later : ℕ).
          if ltb later started_at then none else some ((later - started_at) / nanos_per_sec) in
        (elapsed_time s.item w ≡ (none, w))
        × (elapsed_time s1.item w ≡ (seconds (now w).0, (now w).1))
        × (elapsed_time s2.item w ≡ (seconds stopped_at, w))
  unfolding start stop elapsed_time
  elapsed_after s w e = ground arith
