-- ===== src/ServerMain/Introductions.antt =====
-- server/src/main.cpp, with server/src/BoostNetworkManager.cpp: the snapshots of the sessions while the server
-- runs.
use multilife.Prelude.{
  ℕ, ◌≡◌, refl, ◌⊎◌, ◌++◌, In, some, Bool, true, false, ◌==◌, if◌then◌else◌, inl, inr, Bool-cases,
  List, [], ◌∷◌, Option-cases, nat_eq, take,
}
use multilife.Prelude.Map.{find, insert}
use multilife.World.{ChunkMap}
use multilife.Wire.{msg_resync_req, handshake_size}
use multilife.Serializer.{serialize_full}
use multilife.Sender.Delivery.{rewrite_snapshot_seq_nums-serialize_full}
use multilife.GameServer.{get_full_snapshot_for_seq}
use multilife.Sessions.{
  NetworkManager, Session, send_infos, on_handshake, session_infos, read_command, is_command,
  body_size,
}
use multilife.Sessions.Listener.{Answers, on_accept}
use multilife.ServerMain.{
  System, Connection, Reading, handshake, ended, message, body, Work, udp_broadcast,
  stats_broadcast, Handled, hand_on, handle_handshake, handle_type, handle_body, complete,
  read_done, forget, read_failed, new_session, accept_done, start_main,
}
use multilife.ServerMain.Run.{
  do_work, work_done, tick, Event, accepted, written, read, failed, worked, ticked, write_bytes,
  step, serve,
}
use multilife.ServerMain.Completes.{Completes, by_handshake, by_type, by_body, complete-Completes}
use multilife.ServerMain.Frame.{at_connection_lem}
use multilife.ServerMain.Posted.{tick-Ticks}
use multilife.ServerMain.Sending.{SendsWell, serve-SendsWell}
use multilife.ServerMain.Snapshots.{
  AllIntroduced, AllIntroduced-on_handshake, AllIntroduced-remove_session,
  AllIntroduced-mark_session, session_infos-Located, send_infos-AllIntroduced,
}

module _ (Known : ℕ → ℕ → Type 0) (w : ChunkMap) (seq : ℕ) where
  abbrev Kept : NetworkManager → List (ℕ × List ℕ) → Type 0
  Kept n sent = AllIntroduced Known w seq n sent

  handle_handshake-AllIntroduced :
      (peer : ℕ) (bytes : List ℕ) (s : System) (sent : List (ℕ × List ℕ))
      → Kept s.manager sent
      → Kept (handle_handshake peer bytes s).0.manager sent
  unfolding handle_handshake
  handle_handshake-AllIntroduced peer bytes s sent h =
      elim (Option-cases (on_handshake bytes peer s.manager)) [
        | inl bad ↦ rw (bad, handle_handshake) h
        | inr ((id, n), good) ↦
            rw (good, handle_handshake)
              (AllIntroduced-on_handshake Known w seq s.manager sent bytes peer id n good h)
      ]

  handle_type-AllIntroduced :
      (id b : ℕ) (s : System) (sent : List (ℕ × List ℕ))
      → Kept s.manager sent
      → Kept (handle_type id b s).0.manager sent
  unfolding handle_type
  handle_type-AllIntroduced id b s sent h = elim (Bool-cases (b == msg_resync_req)) [
    | inl resync ↦
        rw resync (AllIntroduced-mark_session Known w seq s.manager sent true id (λ e. cc (e)) h)
    | inr other ↦ elim (Bool-cases (is_command b)) [
      | inl command ↦ rw (other, command) h
      | inr unknown ↦ rw (other, unknown) h
    ]
  ]

  handle_body-AllIntroduced :
      (id b : ℕ) (bytes : List ℕ) (s : System) (sent : List (ℕ × List ℕ))
      → Kept s.manager sent
      → Kept (handle_body id b bytes s).0.manager sent
  unfolding handle_body hand_on
  handle_body-AllIntroduced id b bytes s sent h = elim (Option-cases (read_command id b bytes)) [
    | inl spoofed ↦ rw (spoofed, handle_body) h
    | inr (cmd, own) ↦ rw (own, handle_body) h
  ]

  Completes-AllIntroduced :
      (reading : Reading) (peer : ℕ) (wire : List ℕ) (s : System) (size : ℕ) (next : Handled)
      (sent : List (ℕ × List ℕ))
      → Completes peer wire s size next reading
      → Kept s.manager sent
      → Kept next.0.manager sent
  Completes-AllIntroduced _ peer wire s size next sent (by_handshake long e q) h =
      rw q (handle_handshake-AllIntroduced peer (take handshake_size wire) s sent h)
  Completes-AllIntroduced _ peer wire s size next sent (by_type id b rest front e q) h =
      rw q (handle_type-AllIntroduced id b s sent h)
  Completes-AllIntroduced _ peer wire s size next sent (by_body id b long e q) h =
      rw q (handle_body-AllIntroduced id b (take body_size wire) s sent h)

  forget-AllIntroduced :
      (reading : Reading) (n : NetworkManager) (sent : List (ℕ × List ℕ))
      → Kept n sent
      → Kept (forget reading n) sent
  unfolding forget
  forget-AllIntroduced handshake n sent h = h
  forget-AllIntroduced ended n sent h = h
  forget-AllIntroduced (message id) n sent h = AllIntroduced-remove_session Known w seq n sent id h
  forget-AllIntroduced (body id b) n sent h = AllIntroduced-remove_session Known w seq n sent id h

  read_done-AllIntroduced :
      (i : ℕ) (c : Connection) (s : System) (sent : List (ℕ × List ℕ))
      → Kept s.manager sent
      → Kept (read_done i c s).manager sent
  unfolding read_done
  read_done-AllIntroduced i c s sent h = elim (Option-cases (complete c.reading c.peer c.wire s)) [
    | inl waits ↦ rw (waits, read_done) h
    | inr ((size, next), done) ↦
        let d = complete-Completes c.reading c.peer c.wire s size next done in
        rw (done, read_done) (Completes-AllIntroduced c.reading c.peer c.wire s size next sent d h)
  ]

-- The session did not wait for a snapshot, and had this endpoint.
pub record WasGreeted (s : System) (id ep : ℕ) : Type 0 where
  pub session : Session
  pub here : find id s.manager.sessions ≡ some session
  pub greeted : session.needs_full_snapshot ≡ false
  pub endpoint : find id s.manager.udp_endpoints ≡ some ep

-- The step did the oldest piece of the posted work, and that was a broadcast, in which the endpoint was
-- sent the full snapshot of the server's world as it is now, under the number of the broadcast.
pub record Greets (s t : System) (ep : ℕ) : Type 0 where
  pub payload : List ℕ
  pub seq_num : ℕ
  pub later : List Work
  pub oldest : s.posted ≡ udp_broadcast payload seq_num ∷ later
  pub more : List (ℕ × List ℕ)
  pub sent : t.udp_sent ≡ s.udp_sent ++ more
  pub there : In (ep, serialize_full seq_num s.server.world) more

-- From `s` to `t` a session stops waiting only by being sent the snapshot.
abbrev pub IsGreeted : System → System → Type 0
IsGreeted s t =
    (id : ℕ) (u : Session) (ep : ℕ)
    → find id t.manager.sessions ≡ some u
    → u.needs_full_snapshot ≡ false
    → find id t.manager.udp_endpoints ≡ some ep
    → WasGreeted s id ep ⊎ Greets s t ep

known_now : (s : System) (w : ChunkMap) (seq : ℕ) → Kept (WasGreeted s) w seq s.manager []
known_now s w seq id u ep here off there =
    inl (record { session = u; here = here; greeted = off; endpoint = there })

-- A step that sends nothing.
silent : (s t : System) → Kept (WasGreeted s) s.server.world 0 t.manager [] → IsGreeted s t
silent s t h id u ep here off there = elim (h id u ep here off there) [
  | inl known ↦ inl known
  | inr none_sent ↦ elim none_sent [ ]
]

unchanged : (s : System) → IsGreeted s s
unchanged s = silent s s (known_now s s.server.world 0)

do_work-IsGreeted :
    (w : Work) (later : List Work) (s : System)
    → s.server.cached_full_snapshot ≡ serialize_full 0 s.server.world
    → s.posted ≡ w ∷ later
    → IsGreeted s (do_work w (record s { posted = later }))
unfolding do_work get_full_snapshot_for_seq
do_work-IsGreeted (udp_broadcast payload seq) later s cached e id u ep here off there =
    let infos = session_infos s.manager.sessions s.manager.udp_endpoints in
    let full = get_full_snapshot_for_seq s.server seq in
    elim (send_infos-AllIntroduced (WasGreeted s) s.server.world seq full payload infos s.manager []
      (rw cached (rewrite_snapshot_seq_nums-serialize_full seq 0 s.server.world).0)
      (session_infos-Located s.manager.sessions s.manager) (known_now s s.server.world seq) id u ep
      here off there) [
        | inl known ↦ inl known
        | inr sent ↦ inr (record {
          payload = payload;
          seq_num = seq;
          later = later;
          oldest = e;
          more = (send_infos full payload infos s.manager).0;
          sent = refl;
          there = sent;
        })
      ]
do_work-IsGreeted (stats_broadcast payload) later s cached e id u ep here off there =
    silent s (do_work (stats_broadcast payload) (record s { posted = later }))
      (known_now s s.server.world 0) id u ep here off there

either_way :
    (b : Bool) (s t u : System) → IsGreeted s t → IsGreeted s u → IsGreeted s (if b then t else u)
either_way true s t u f g = f
either_way false s t u f g = g

work_done-IsGreeted :
    (posted : List Work) (s : System)
    → SendsWell s
    → s.posted ≡ posted
    → IsGreeted s (work_done posted s)
unfolding work_done
work_done-IsGreeted [] s sends e = unchanged s
work_done-IsGreeted (w ∷ posted) s sends e =
    either_way s.listener.io_thread s _ s (do_work-IsGreeted w posted s sends.cached e)
      (unchanged s)

accept_done-IsGreeted : (i peer : ℕ) (s : System) → IsGreeted s (accept_done i peer s)
unfolding accept_done
accept_done-IsGreeted i peer s =
    either_way s.listener.accepting s
      (record s {
        listener = (on_accept false s.listener).1;
        connections =
            if (on_accept false s.listener).0
            then insert i (new_session peer) s.connections
            else s.connections;
      })
      s (silent s _ (known_now s s.server.world 0)) (unchanged s)

step-IsGreeted : (e : Event) (s : System) → SendsWell s → IsGreeted s (step e s)
unfolding step write_bytes read_failed
step-IsGreeted (accepted i peer) s sends = elim (Option-cases (find i s.connections)) [
  | inl free ↦ rw (free, step) (accept_done-IsGreeted i peer s)
  | inr (c, taken) ↦ rw (taken, step) (unchanged s)
]
step-IsGreeted (written i bytes) s sends =
    at_connection_lem (IsGreeted s) i (write_bytes i bytes) s (unchanged s)
      (λ c here. silent s _ (known_now s s.server.world 0))
step-IsGreeted (read i) s sends =
    at_connection_lem (IsGreeted s) i (read_done i) s (unchanged s) (λ c here.
      silent s (read_done i c s) (
        read_done-AllIntroduced (WasGreeted s) s.server.world 0 i c s []
          (known_now s s.server.world 0)))
step-IsGreeted (failed i) s sends =
    at_connection_lem (IsGreeted s) i (read_failed i) s (unchanged s) (λ c here. silent s _ (
      forget-AllIntroduced (WasGreeted s) s.server.world 0 c.reading s.manager []
        (known_now s s.server.world 0)))
step-IsGreeted worked s sends = work_done-IsGreeted s.posted s sends refl
step-IsGreeted ticked s sends =
    let t = tick-Ticks s in
    silent s (tick s) (rw (t.sessions, t.udp_endpoints) (known_now s s.server.world 0))

-- Whatever has happened since the server started, and whatever happens next: a session that does not wait
-- for a snapshot after it, and so gets deltas, did not wait before, with the same endpoint; or else what
-- happened was a broadcast, in which its endpoint was sent the full snapshot of the server's world at that
-- moment, under the number of the broadcast.
pub serve-IsGreeted :
    (answers : Answers) (events : List Event) (e : Event)
    → IsGreeted (serve events (start_main answers)) (step e (serve events (start_main answers)))
serve-IsGreeted answers events e =
    step-IsGreeted e (serve events (start_main answers)) (serve-SendsWell answers events)
