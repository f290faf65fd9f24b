-- ===== src/ServerMain/Registry.antt =====
-- server/src/BoostNetworkManager.cpp and server/src/ResourceManager.cpp: the sessions, the endpoints and the
-- balances of the players, step by step.
use multilife.Prelude.{
  ℕ, ◌≡◌, ◌↔◌, refl, ◌∙◌, Bool, true, false, ◌==◌, if◌then◌else◌, inl, inr, Bool-cases, List, [],
  ◌∷◌, drop, none, some, Option-cases, nat_eq, ==_iff, arith,
}
use multilife.Prelude.Map.{find, insert, find-insert, find-erase}
use multilife.Wire.{read_le, magic}
use multilife.Resources.{ResourceManager, add_player}
use multilife.Resources.Balances.{IsKnown}
use multilife.Resources.Known.{add_player-IsKnown, joined-IsKnown}
use multilife.Sessions.{
  NetworkManager, Session, SessionInfo, on_handshake, remove_session, mark_session, set_needs_full,
  send_infos,
}

-- Each session has an endpoint, and each endpoint a session; the session of an id is of that player, who
-- has a balance.
pub record SessionsFit (r : ResourceManager) (n : NetworkManager) : Type 0 where
  pub endpoints : (id : ℕ) → (find id n.sessions ≡ none) ↔ (find id n.udp_endpoints ≡ none)
  pub named :
      (id : ℕ) (s : Session) → find id n.sessions ≡ some s → (s.player_id ≡ id) × IsKnown id r

SessionsFit-insert :
    (r : ResourceManager) (n : NetworkManager) (id peer : ℕ) (s : Session)
    → s.player_id ≡ id
    → IsKnown id r
    → SessionsFit r n
    → SessionsFit r (record n {
      sessions = insert id s n.sessions;
      udp_endpoints = insert id peer n.udp_endpoints;
    })
SessionsFit-insert r n id peer s own known h = record {
  endpoints = λ j.
      ground (
        arith,
        find-insert id j s n.sessions,
        find-insert id j peer n.udp_endpoints,
        h.endpoints j,
      );
  named = λ j t e. elim (Bool-cases (id == j)) [
    | inl same ↦
        let q = (==_iff id j).0 same in
        let here : s ≡ t = cc (find-insert id j s n.sessions, same, e) in
        (rw (← here) (own ∙ q), rw (← q) known)
    | inr other ↦ h.named j t (cc (find-insert id j s n.sessions, other, e))
  ];
}

pub SessionsFit-remove_session :
    (r : ResourceManager) (n : NetworkManager) (id : ℕ)
    → SessionsFit r n
    → SessionsFit r (remove_session id n)
unfolding remove_session
SessionsFit-remove_session r n id h = record {
  endpoints = λ j.
      ground (arith, find-erase id j n.sessions, find-erase id j n.udp_endpoints, h.endpoints j);
  named = λ j t e. elim (Bool-cases (id == j)) [
    | inl same ↦ cc (find-erase id j n.sessions, same, e)
    | inr other ↦ h.named j t (cc (find-erase id j n.sessions, other, e))
  ];
}

pub SessionsFit-mark_session :
    (r : ResourceManager) (n : NetworkManager) (b : Bool) (id : ℕ)
    → SessionsFit r n
    → SessionsFit r (mark_session b id n)
unfolding mark_session
SessionsFit-mark_session r n b id h = elim (Option-cases (find id n.sessions)) [
  | inl free ↦ rw (free, mark_session) h
  | inr (s, here) ↦
      rw (here, mark_session)
        (record {
          endpoints = λ j. ground (
            arith,
            ==_iff id j,
            find-insert id j (set_needs_full b s) n.sessions,
            h.endpoints j,
            here,
          );
          named = λ j t e. elim (Bool-cases (id == j)) [
            | inl same ↦
                let q = (==_iff id j).0 same in
                let (own, known) = h.named id s here in
                let marked : set_needs_full b s ≡ t =
                  cc (find-insert id j (set_needs_full b s) n.sessions, same, e) in
                (rw (← marked) (own ∙ q), rw (← q) known)
            | inr other ↦
                h.named j t (cc (find-insert id j (set_needs_full b s) n.sessions, other, e))
          ];
        })
]

pub SessionsFit-send_infos :
    (r : ResourceManager) (full delta : List ℕ) (infos : List SessionInfo) (n : NetworkManager)
    → SessionsFit r n
    → SessionsFit r (send_infos full delta infos n).1
unfolding send_infos
SessionsFit-send_infos r full delta [] n h = h
SessionsFit-send_infos r full delta (info ∷ infos) n h =
    SessionsFit-send_infos r full delta infos _ (either info.needs_full)
  where
    either : (b : Bool) → SessionsFit r (if b then mark_session false info.id n else n)
    either true = SessionsFit-mark_session r n false info.id h
    either false = h

pub SessionsFit-grow :
    (r r' : ResourceManager) (n : NetworkManager)
    → ((p : ℕ) → IsKnown p r → IsKnown p r')
    → SessionsFit r n
    → SessionsFit r' n
SessionsFit-grow r r' n more h = record {
  endpoints = h.endpoints;
  named = λ id s e. let (own, known) = h.named id s e in (own, more id known);
}

abbrev pub welcomed : ℕ → ℕ → NetworkManager → NetworkManager
welcomed id peer n = record n {
  sessions =
      insert id (record { player_id = id; handshake_done = true; needs_full_snapshot = true })
        n.sessions;
  udp_endpoints = insert id peer n.udp_endpoints;
}

pub SessionsFit-on_handshake :
    (r : ResourceManager) (n n' : NetworkManager) (bytes : List ℕ) (peer id : ℕ)
    → on_handshake bytes peer n ≡ some (id, n')
    → SessionsFit r n
    → SessionsFit (add_player r id).0 n'
unfolding on_handshake
SessionsFit-on_handshake r n n' bytes peer id e h = elim (Bool-cases (read_le 4 bytes == magic)) [
  | inl good ↦
      let e' : some (read_le 8 (drop 4 bytes), welcomed (read_le 8 (drop 4 bytes)) peer n)
          ≡ some (id, n') =
        rw good at e in
      let player : read_le 8 (drop 4 bytes) ≡ id = cc (e') in
      let manager : welcomed (read_le 8 (drop 4 bytes)) peer n ≡ n' = cc (e') in
      rw (← manager, player)
        (SessionsFit-insert _ n id peer _ refl (joined-IsKnown r id)
          (SessionsFit-grow r (add_player r id).0 n (λ p. add_player-IsKnown p r id) h))
  | inr bad ↦ cc (rw bad at e)
]
