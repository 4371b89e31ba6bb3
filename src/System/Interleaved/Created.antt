-- ===== src/System/Interleaved/Created.antt =====
-- What a client is told of a session that it has made and not used since.
use load_test_server.Prelude.{
  ◌≡◌, refl, ap, ◌∙◌, inl, inr, String, Option, none, some, List, ◌∷◌, All, length,
}
use load_test_server.Result.{ok}
use load_test_server.Helpers.{systemtime_to_timestamp}
use load_test_server.Log
use load_test_server.PeerConnection.{PeerConnectionManager}
use load_test_server.Session.{Session, elapsed_time}
use load_test_server.Session.New.{IsNew}
use load_test_server.Session.Kept.{Kept, SameOption}
use load_test_server.Stats.{WebrtcSessionStats, session_stats, webrtc_session_stats}
use load_test_server.Data.{lookup, call_session}
use load_test_server.External.Maps.{no_entries}
use load_test_server.Handlers.Create.{create_session_cases}
use load_test_server.Handlers.Sessions
use load_test_server.System.{create_session, handle}
use load_test_server.System.Invariant.{outcome-state}
use load_test_server.System.Interleaved.{Point, request, Process, move, interleave}
use load_test_server.System.Interleaved.Isolated.{Elsewhere, interleave-Kept}
use load_test_server.Webrtc.{CreateSessionRequest}
use load_test_server.External.Platform.{Platform}

module _ ⦃P : Platform⦄ where
  open P use {World, by_name}
  open by_name use {get, entries, get-empty, get-insert_self}

  -- the answer on a session that has not been used
  pub record Unused (r : CreateSessionRequest) (reply : WebrtcSessionStats) : Type 0 where
    pub same_id : reply.id ≡ r.session_id
    pub same_name : reply.name ≡ r.name
    pub no_connections : reply.num_peer_connections ≡ 0
    pub is_created : reply.state ≡ "Created"
    pub no_start : reply.start_time ≡ none
    pub no_stop : reply.stop_time ≡ none
    pub no_time : reply.elapsed_time ≡ 0

  SameOption-none : (o : Option PeerConnectionManager) → SameOption none o → o ≡ none
  SameOption-none none h = refl
  SameOption-none (some pc) h = absurd h

  none-left :
      (r : CreateSessionRequest) (x y : Session)
      → IsNew r.session_id r.name r.polling_state_s (Log.from_i32 r.log_level) x
      → Kept x y
      → (pc_id : String) → get y.peer_connections pc_id ≡ none
  none-left r x y n k pc_id =
      SameOption-none (get y.peer_connections pc_id)
        (rw (n.no_connections, get-empty {V = PeerConnectionManager} pc_id) at (k.connection pc_id))

  stats-Unused :
      (r : CreateSessionRequest) (x y : Session) (w : World)
      → IsNew r.session_id r.name r.polling_state_s (Log.from_i32 r.log_level) x
      → Kept x y
      → Unused r (webrtc_session_stats (session_stats y w).0)
  unfolding webrtc_session_stats session_stats systemtime_to_timestamp elapsed_time
  stats-Unused r x y w n k =
      let state = k.same_state ∙ n.is_created in
      record {
        same_id = k.same_id ∙ n.same_id;
        same_name = k.same_name ∙ n.same_name;
        no_connections = ap length (no_entries by_name y.peer_connections (none-left r x y n k));
        is_created = rw state refl;
        no_start = rw (k.same_start ∙ n.no_start) refl;
        no_stop = rw (k.same_stop ∙ n.no_stop) refl;
        no_time = rw state refl;
      }

  -- Once create_session has succeeded, and whatever requests to other sessions come between any steps
  -- of the metrics task then, get_stats on the session succeeds and tells the id and the name of the
  -- request, the state Created, no connections, neither of the two times, and no time elapsed.
  pub create_session-interleave-get_stats :
      (r : CreateSessionRequest) (es : List Point) (p : Process)
      → (Sessions.create_session r p.server).0 ≡ ok (record { session_id = r.session_id })
      → All (Elsewhere r.session_id) es
      → let s = (interleave (request (create_session r) ∷ es) p).server in
        (reply : WebrtcSessionStats) × ((Sessions.get_stats
            (record { session_id = r.session_id })
            s).0
          ≡ ok (record { session = some reply }))
        × Unused r reply
  unfolding interleave move handle Sessions.get_stats
  create_session-interleave-get_stats r es p made away = elim (create_session_cases r p.server) [
    | inl (x, _, n, e) ↦
        let t = move (request (create_session r)) p in
        let there : lookup r.session_id t.server ≡ some x =
          rw (outcome-state, e) (get-insert_self p.server.item.sessions r.session_id x) in
        let (y, found, kept) = interleave-Kept es t r.session_id x away there in
        (
          webrtc_session_stats (session_stats y (interleave es t).server.world).0,
          rw (found, Sessions.get_stats, call_session) refl,
          stats-Unused r x y (interleave es t).server.world n kept,
        )
    | inr (inl (x, _, e)) ↦ absurd (cc (e, made))
    | inr (inr (_, e)) ↦ absurd (cc (e, made))
  ]
