-- ===== src/ServerMain/Snapshots.antt =====
-- server/src/main.cpp, with server/src/BoostNetworkManager.cpp, `doUdpBroadcast`: which sessions stop waiting for a
-- snapshot.
use multilife.Prelude.{
  ◌⊎◌, ℕ, ◌≡◌, refl, sym, Bool, true, false, ◌==◌, if◌then◌else◌, inl, inr, Bool-cases, List, [],
  ◌∷◌, ◌++◌, append_assoc, append-nil, In, In-append_left, In-append_right, All, some, Option-cases,
  nat_eq, ==_iff, drop,
}
use multilife.Prelude.Map.{find, find-insert, find-erase}
use multilife.Wire.{read_le, magic}
use multilife.World.{ChunkMap}
use multilife.Serializer.{serialize_full}
use multilife.Sessions.{
  NetworkManager, Session, SessionInfo, on_handshake, remove_session, mark_session, set_needs_full,
  send_infos, session_infos,
}
use multilife.ServerMain.Posted.{endpoints-mark_session}
use multilife.ServerMain.Registry.{welcomed}

abbrev fresh_session : ℕ → Session
fresh_session id = record { player_id = id; handshake_done = true; needs_full_snapshot = true }

abbrev Located : NetworkManager → List SessionInfo → Type 0
Located n infos =
    All (λ (info : SessionInfo). find info.id n.udp_endpoints ≡ some info.endpoint) infos

pub session_infos-Located :
    (sessions : List (ℕ × Session)) (n : NetworkManager)
    → Located n (session_infos sessions n.udp_endpoints)
unfolding session_infos
session_infos-Located [] n = tt
session_infos-Located ((id, s) ∷ sessions) n = elim (Option-cases (find id n.udp_endpoints)) [
  | inl free ↦ rw (free, session_infos) (session_infos-Located sessions n)
  | inr (ep, here) ↦ rw (here, session_infos) (here, session_infos-Located sessions n)
]

Located-mark_session :
    (b : Bool) (id : ℕ) (infos : List SessionInfo) (n : NetworkManager)
    → Located n infos
    → Located (mark_session b id n) infos
Located-mark_session b id infos n h = rw (endpoints-mark_session b id n) h

Located-sent :
    (b : Bool) (info : SessionInfo) (infos : List SessionInfo) (n : NetworkManager)
    → Located n infos
    → Located (if b then mark_session false info.id n else n) infos
Located-sent true info infos n h = Located-mark_session false info.id infos n h
Located-sent false info infos n h = h

module _ (Known : ℕ → ℕ → Type 0) (w : ChunkMap) (seq : ℕ) where
  -- The session was known before, at this endpoint, or the endpoint was sent the full snapshot.
  abbrev Introduced : ℕ → ℕ → List (ℕ × List ℕ) → Type 0
  Introduced id ep sent = Known id ep ⊎ In (ep, serialize_full seq w) sent

  -- So for every session that does not wait for a snapshot.
  abbrev pub AllIntroduced : NetworkManager → List (ℕ × List ℕ) → Type 0
  AllIntroduced n sent =
      (id : ℕ) (s : Session) (ep : ℕ)
      → find id n.sessions ≡ some s
      → s.needs_full_snapshot ≡ false
      → find id n.udp_endpoints ≡ some ep
      → Introduced id ep sent

  Introduced-append :
      (id ep : ℕ) (sent more : List (ℕ × List ℕ))
      → Introduced id ep sent
      → Introduced id ep (sent ++ more)
  Introduced-append id ep sent more (inl known) = inl known
  Introduced-append id ep sent more (inr there) = inr (In-append_left _ sent more there)

  module _ (n : NetworkManager) (sent : List (ℕ × List ℕ)) where
    AllIntroduced-welcomed :
        (id peer : ℕ) → AllIntroduced n sent → AllIntroduced (welcomed id peer n) sent
    AllIntroduced-welcomed id peer h j s ep here off there = elim (Bool-cases (id == j)) [
      | inl same ↦
          let fresh : fresh_session id ≡ s =
            cc (find-insert id j (fresh_session id) n.sessions, same, here) in
          cc (rw (← fresh) at off)
      | inr other ↦
          h j s ep (cc (find-insert id j (fresh_session id) n.sessions, other, here)) off
            (cc (find-insert id j peer n.udp_endpoints, other, there))
    ]

    pub AllIntroduced-on_handshake :
        (bytes : List ℕ) (peer id : ℕ) (n' : NetworkManager)
        → on_handshake bytes peer n ≡ some (id, n')
        → AllIntroduced n sent
        → AllIntroduced n' sent
    unfolding on_handshake
    AllIntroduced-on_handshake bytes peer id n' e h = elim (Bool-cases (read_le 4 bytes == magic)) [
      | inl good ↦
          let e' : some (read_le 8 (drop 4 bytes), welcomed (read_le 8 (drop 4 bytes)) peer n)
              ≡ some (id, n') =
            rw good at e in
          let manager : welcomed (read_le 8 (drop 4 bytes)) peer n ≡ n' = cc (e') in
          rw (← manager) (AllIntroduced-welcomed (read_le 8 (drop 4 bytes)) peer h)
      | inr bad ↦ cc (rw bad at e)
    ]

    pub AllIntroduced-remove_session :
        (id : ℕ) → AllIntroduced n sent → AllIntroduced (remove_session id n) sent
    unfolding remove_session
    AllIntroduced-remove_session id h j s ep here off there = elim (Bool-cases (id == j)) [
      | inl same ↦ cc (find-erase id j n.sessions, same, here)
      | inr other ↦
          h j s ep (cc (find-erase id j n.sessions, other, here)) off
            (cc (find-erase id j n.udp_endpoints, other, there))
    ]

    -- A session is marked: it has to wait, or its endpoint has just been sent a snapshot.
    pub AllIntroduced-mark_session :
        (b : Bool) (id : ℕ)
        → (b ≡ false → (ep : ℕ) → find id n.udp_endpoints ≡ some ep → Introduced id ep sent)
        → AllIntroduced n sent
        → AllIntroduced (mark_session b id n) sent
    unfolding mark_session
    AllIntroduced-mark_session b id known h = elim (Option-cases (find id n.sessions)) [
      | inl free ↦ rw (free, mark_session) h
      | inr (t, found) ↦
          rw (found, mark_session)
            (λ j s ep here off there. elim (Bool-cases (id == j)) [
              | inl same ↦
                  let q = (==_iff id j).0 same in
                  let marked : set_needs_full b t ≡ s =
                    cc (find-insert id j (set_needs_full b t) n.sessions, same, here) in
                  rw (← q) (known (rw (← marked) at off) ep (rw q there))
              | inr other ↦
                  h j s ep (cc (find-insert id j (set_needs_full b t) n.sessions, other, here)) off
                    there
            ])
    ]

  -- The state after one payload, with what was sent until then.
  send_one :
      (full delta : List ℕ) (info : SessionInfo) (n : NetworkManager) (prior : List (ℕ × List ℕ))
      (b : Bool)
      → full ≡ serialize_full seq w
      → find info.id n.udp_endpoints ≡ some info.endpoint
      → AllIntroduced n prior
      → AllIntroduced
          (if b then mark_session false info.id n else n)
          (prior ++ ((info.endpoint, if b then full else delta) ∷ []))
  send_one full delta info n prior true e at h =
      AllIntroduced-mark_session n (prior ++ ((info.endpoint, full) ∷ [])) false info.id
        (λ off ep there.
          let q : info.endpoint ≡ ep = cc (at, there) in
          inr (rw (← q, ← e) (In-append_right _ prior _ (inl refl))))
        (λ j s ep here off there. Introduced-append j ep prior _ (h j s ep here off there))
  send_one full delta info n prior false e at h =
      λ j s ep here off there. Introduced-append j ep prior _ (h j s ep here off there)

  pub send_infos-AllIntroduced :
      (full delta : List ℕ) (infos : List SessionInfo) (n : NetworkManager)
      (prior : List (ℕ × List ℕ))
      → full ≡ serialize_full seq w
      → Located n infos
      → AllIntroduced n prior
      → AllIntroduced (send_infos full delta infos n).1 (prior ++ (send_infos full delta infos n).0)
  unfolding send_infos
  send_infos-AllIntroduced full delta [] n prior e located h = rw (append-nil prior) h
  send_infos-AllIntroduced full delta (info ∷ infos) n prior e located h =
      let next = if info.needs_full then mark_session false info.id n else n in
      let sent : ℕ × List ℕ = (info.endpoint, if info.needs_full then full else delta) in
      rw (sym (append_assoc prior (sent ∷ []) (send_infos full delta infos next).0)) (
        send_infos-AllIntroduced full delta infos next (prior ++ (sent ∷ [])) e
          (Located-sent info.needs_full info infos n located.1)
          (send_one full delta info n prior info.needs_full e located.0 h))
