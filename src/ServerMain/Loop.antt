-- ===== src/ServerMain/Loop.antt =====
-- server/src/main.cpp: the loop of `main`, and a server whose sockets could not be opened.
use multilife.Prelude.{ℕ, ◌≡◌, refl, ◌∙◌, true, false, List, [], inl, inr, nat_eq, each, Bool-cases}
use multilife.Prelude.Map.{find}
use multilife.GameServer
use multilife.GameServer.{GameServer, on_tick, broadcast, refresh_full_snapshot_cache}
use multilife.GameServer.Tick.{on_tick_lem}
use multilife.Sessions.Listener
use multilife.Sessions.Listener.{Answers, fails, new-IsConsistent, start-IsConsistent}
use multilife.ServerMain.{System, no_sessions, accept_done, start_main, carry_out}
use multilife.ServerMain.Run.{
  Event, accepted, written, read, failed, worked, ticked, at_connection, step, serve, main_round,
}
use multilife.ServerMain.Frame.{IsSocketEvent, step-Frame, serve_keep}
use multilife.ServerMain.Posted.{tick-Ticks, work_done-Works}

on_tick-running : (g : GameServer) → (on_tick g).0.running ≡ g.running
unfolding broadcast refresh_full_snapshot_cache
on_tick-running g = elim (Bool-cases g.has_network) [
  | inl on ↦ rw (on_tick_lem g, on)
  | inr off ↦ rw (on_tick_lem g, off)
]

abbrev Runs : System → Type 0
Runs s = s.server.running ≡ true

step-Runs : (e : Event) (s : System) → Runs s → Runs (step e s)
unfolding IsSocketEvent
step-Runs (accepted i peer) s h = (step-Frame (accepted i peer) s tt).running ∙ h
step-Runs (written i bytes) s h = (step-Frame (written i bytes) s tt).running ∙ h
step-Runs (read i) s h = (step-Frame (read i) s tt).running ∙ h
step-Runs (failed i) s h = (step-Frame (failed i) s tt).running ∙ h
step-Runs worked s h = unfold step in rw (work_done-Works s.posted s).server h
step-Runs ticked s h = unfold step in rw (tick-Ticks s).server (on_tick-running s.server ∙ h)

-- No socket accepts, and there is no connection.
record IsDeaf (s : System) : Type 0 where
  idle : s.listener.accepting ≡ false
  alone : s.connections ≡ []

nobody :
    (i : ℕ) (s : System) (act : _ → System → System) → IsDeaf s → IsDeaf (at_connection i act s)
unfolding at_connection find
nobody i s act h = rw (at_connection, h.alone) h

step-IsDeaf : (e : Event) (s : System) → IsDeaf s → IsDeaf (step e s)
unfolding step accept_done find
step-IsDeaf (accepted i peer) s h =
    rw (step, h.alone, accept_done, h.idle) (record { idle = refl; alone = h.alone })
step-IsDeaf (written i bytes) s h = nobody i s _ h
step-IsDeaf (read i) s h = nobody i s _ h
step-IsDeaf (failed i) s h = nobody i s _ h
step-IsDeaf worked s h =
    let w = work_done-Works s.posted s in
    record { idle = rw w.listener h.idle; alone = w.connections ∙ h.alone }
step-IsDeaf ticked s h =
    let t = tick-Ticks s in record { idle = rw t.listener h.idle; alone = t.connections ∙ h.alone }

start_main-IsDeaf : (answers : Answers) → fails answers ≡ true → IsDeaf (start_main answers)
unfolding start_main carry_out each GameServer.start refresh_full_snapshot_cache
start_main-IsDeaf answers bad =
    let (consistent, runs, again, ends, returns, hangs) =
      start-IsConsistent answers Listener.new no_sessions 0 new-IsConsistent in
    record { idle = consistent.accepts ∙ runs refl ∙ rw bad; alone = refl }

start_main-Runs : (answers : Answers) → Runs (start_main answers)
unfolding start_main carry_out each GameServer.start refresh_full_snapshot_cache
start_main-Runs answers = refl

-- Whatever happens, the server runs, and the loop of `main` goes on; if one of the calls that open the
-- sockets fails, the server runs all the same, and no connection is ever accepted.
pub serve-running :
    (answers : Answers) (events : List Event)
    → ((serve events (start_main answers)).server.running ≡ true)
      × (main_round answers (serve events (start_main answers)) ≡ serve events (start_main answers))
      × (fails answers ≡ true → (serve events (start_main answers)).connections ≡ [])
unfolding main_round
serve-running answers events =
    let runs = serve_keep Runs step-Runs events (start_main answers) (start_main-Runs answers) in
    (
      runs,
      rw runs,
      λ bad.
          (serve_keep IsDeaf step-IsDeaf events (start_main answers)
            (start_main-IsDeaf answers bad)).alone,
    )
