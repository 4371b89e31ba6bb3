-- ===== src/Session/Order.antt =====
-- src/session.rs: the tally of the peer connections in another order of iteration.
use mathlib.Core.Logic.{∥∥₁_elim}
use mathlib.Core.List.{Nodup, Pairwise, Perm, Permᴰ, perm_ext_iff_of_Nodup}
use native.Mathlib.Nat.{ℕ_set}
use load_test_server.Prelude.{
  ◌≡◌, ◌≢◌, refl, sym, ap, ◌∙◌, some, String, List, [], ◌∷◌, All, Memᴰ, Distinct, map, arith,
}
use load_test_server.PeerConnection.{PeerConnectionManager}
use load_test_server.Session.{
  Session, PeerConnectionState, default, tally_one, tally, peer_connection_states,
}
use load_test_server.External.Maps.{get_of_mem}
use load_test_server.External.Platform.{Platform}

module _ ⦃P : Platform⦄ where
  open P use {by_name}
  open by_name use {Map, get, entries, mem-entries, entries-Distinct}

  tally_one_comm :
      (a b : PeerConnectionManager) (t : PeerConnectionState)
      → tally_one a (tally_one b t) ≡ tally_one b (tally_one a t)
  unfolding tally_one
  tally_one_comm a b t = ground arith

  tally-Permᴰ :
      {l l' : List (String × PeerConnectionManager)}
      → Permᴰ l l'
      → (t : PeerConnectionState) → tally t l ≡ tally t l'
  unfolding tally
  tally-Permᴰ Permᴰ.nil t = refl
  tally-Permᴰ (Permᴰ.cons {a = a} {b = b} {l₁ = l} {l₂ = l'} e d) t =
      tally-Permᴰ d (tally_one a.1 t)
      ∙ ap (λ (c : String × PeerConnectionManager). tally (tally_one c.1 t) l') e
  tally-Permᴰ (Permᴰ.swap {a = a} {b = b} {a' = a'} {b' = b'} {l = l} e e') t =
      ap (λ u. tally u l)
        (tally_one_comm b.1 a.1 t
          ∙ ap (λ (c : String × PeerConnectionManager). tally_one c.1 (tally_one b.1 t)) e
          ∙ ap (λ (c : String × PeerConnectionManager). tally_one b'.1 (tally_one c.1 t)) e')
  tally-Permᴰ (Permᴰ.trans d d') t = tally-Permᴰ d t ∙ tally-Permᴰ d' t

  states_set : IsSet PeerConnectionState
  states_set = hlevel ℕ_set

  tally-Perm :
      {l l' : List (String × PeerConnectionManager)}
      → Perm l l'
      → (t : PeerConnectionState) → tally t l ≡ tally t l'
  tally-Perm p t = ∥∥₁_elim p (states_set _ _) (λ d. tally-Permᴰ d t)

  other_key :
      (e : String × PeerConnectionManager) (l : List (String × PeerConnectionManager))
      → All (λ k. k ≢ e.0) (map (λ e. e.0) l)
      → (d : String × PeerConnectionManager) → Memᴰ d l
      → e ≢ d
  other_key e [] h d m = elim m [ ]
  other_key e (c ∷ l) h d (Memᴰ.head q) =
      λ same. h.0 (ap (λ (c : String × PeerConnectionManager). c.0) (sym q ∙ sym same))
  other_key e (c ∷ l) h d (Memᴰ.tail m) = other_key e l h.1 d m

  Distinct-Nodup :
      (l : List (String × PeerConnectionManager)) → Distinct (map (λ e. e.0) l) → Nodup l
  Distinct-Nodup [] h = Pairwise.nil
  Distinct-Nodup (e ∷ l) h =
      Pairwise.cons (λ d m. ∥∥₁_elim m (hlevel) (other_key e l h.0 d)) (Distinct-Nodup l h.1)

  -- the entries of a map, tallied in any order
  pub tally-entries :
      (m : Map PeerConnectionManager) (l : List (String × PeerConnectionManager))
      → Distinct (map (λ e. e.0) l)
      → ((e : String × PeerConnectionManager) → Memᴰ e l → get m e.0 ≡ some e.1)
      → ((k : String) (pc : PeerConnectionManager) → get m k ≡ some pc → Memᴰ (k, pc) l)
      → (t : PeerConnectionState) → tally t l ≡ tally t (entries m)
  tally-entries m l distinct found complete = tally-Perm (
      (perm_ext_iff_of_Nodup (Distinct-Nodup l distinct)
          (Distinct-Nodup (entries m) (entries-Distinct m))).1
        (λ e. (
          λ q. ∥∥₁_elim q (hlevel) (λ d. ∣ mem-entries m e.0 e.1 (found e d) ∣₁),
          λ q. ∥∥₁_elim q (hlevel) (λ d. ∣ complete e.0 e.1 (get_of_mem by_name m e d) ∣₁),
        )))

  -- The tally depends on which connections a session has and not on the order in which an iteration
  -- visits them: sessions with the same connection or none under every id have the same tally.
  pub peer_connection_states-same :
      (x y : Session)
      → ((k : String) → get x.peer_connections k ≡ get y.peer_connections k)
      → peer_connection_states x ≡ peer_connection_states y
  unfolding peer_connection_states
  peer_connection_states-same x y h =
      let m = x.peer_connections in
      tally-entries y.peer_connections (entries m) (entries-Distinct m)
        (λ e d. sym (h e.0) ∙ get_of_mem by_name m e d)
        (λ k pc found. mem-entries m k pc (h k ∙ found)) default
