-- ===== src/ServerMain/Soundness.antt =====
-- server/src/main.cpp, with server/src/GameServer.cpp: the world while the server runs.
use multilife.Prelude.{
  ◌≡◌, refl, sym, ◌∙◌, true, List, [], ◌∷◌, ◌++◌, append_assoc, append-nil, All, arith, each,
}
use multilife.Prelude.Map.{find}
use multilife.Types.{chunk_coord_eq, PlayerCommand}
use multilife.World.{read_or_dead}
use multilife.World.Coordinates.{cell_at}
use multilife.GameServer
use multilife.GameServer.{on_tick, refresh_full_snapshot_cache}
use multilife.GameServer.Generation.{AllValid}
use multilife.GameServer.Invariant.{AllOwned, Proper}
use multilife.GameServer.Tick.{on_tick-edited}
use multilife.Mirror.{HasOneEach}
use multilife.Mirror.Tick.{Sound, on_tick-Sound}
use multilife.Mirror.Run.{on_tick-network}
use multilife.Sessions.Listener.{Answers}
use multilife.ServerMain.{System, start_main, carry_out}
use multilife.ServerMain.Run.{
  tick, work_done, Event, accepted, written, read, failed, worked, ticked, step, serve,
}
use multilife.ServerMain.Frame.{Frame, IsSocketEvent, step-Frame, serve_keep}
use multilife.ServerMain.Posted.{tick-Ticks, work_done-Works}

pub no_world-AllValid : AllValid []
unfolding find
no_world-AllValid k c e = cc (e)

pub no_world-AllOwned : AllOwned []
unfolding cell_at find read_or_dead
no_world-AllOwned gx gy = ground arith

pub no_world-Sound : Sound []
unfolding HasOneEach find
no_world-Sound = record {
  valid = no_world-AllValid;
  owned = no_world-AllOwned;
  one_each = tt;
  within = λ k c e. cc (e);
}

-- The commands of the queue are the last of those that were handed on; if all those are proper, the world
-- is sound.
pub record IsServed (s : System) : Type 0 where
  pub network : s.server.has_network ≡ true
  pub applied : List PlayerCommand
  pub log : s.log ≡ applied ++ s.server.command_queue
  pub sound : All Proper applied → Sound s.server.world

All-left : (xs ys : List PlayerCommand) → All Proper (xs ++ ys) → All Proper xs × All Proper ys
All-left [] ys h = (tt, h)
All-left (x ∷ xs) ys h = let (l, r) = All-left xs ys h.1 in ((h.0, l), r)

Frame-IsServed : (s t : System) → Frame s t → IsServed s → IsServed t
Frame-IsServed s t f h = record {
  network = f.network ∙ h.network;
  applied = h.applied;
  log = f.log ∙ rw (h.log, f.queue) (append_assoc h.applied s.server.command_queue f.news);
  sound = rw f.world h.sound;
}

tick-IsServed : (s : System) → IsServed s → IsServed (tick s)
tick-IsServed s h =
    let t = tick-Ticks s in
    record {
      network = rw t.server (on_tick-network s.server h.network);
      applied = s.log;
      log = rw (t.log, t.server, (on_tick-edited s.server).1) (sym (append-nil s.log));
      sound = λ proper.
          let (old, waiting) = All-left h.applied s.server.command_queue (rw h.log at proper) in
          rw t.server (on_tick-Sound s.server h.network waiting (h.sound old));
    }

work_done-IsServed : (s : System) → IsServed s → IsServed (work_done s.posted s)
work_done-IsServed s h =
    let w = work_done-Works s.posted s in
    record {
      network = rw w.server h.network;
      applied = h.applied;
      log = w.log ∙ rw w.server h.log;
      sound = rw w.server h.sound;
    }

step-IsServed : (e : Event) (s : System) → IsServed s → IsServed (step e s)
unfolding IsSocketEvent
step-IsServed (accepted i peer) s h = Frame-IsServed s _ (step-Frame (accepted i peer) s tt) h
step-IsServed (written i bytes) s h = Frame-IsServed s _ (step-Frame (written i bytes) s tt) h
step-IsServed (read i) s h = Frame-IsServed s _ (step-Frame (read i) s tt) h
step-IsServed (failed i) s h = Frame-IsServed s _ (step-Frame (failed i) s tt) h
step-IsServed worked s h = unfold step in work_done-IsServed s h
step-IsServed ticked s h = unfold step in tick-IsServed s h

start_main-IsServed : (answers : Answers) → IsServed (start_main answers)
unfolding start_main carry_out each GameServer.start refresh_full_snapshot_cache
start_main-IsServed answers = record {
  network = refl;
  applied = [];
  log = refl;
  sound = λ h. no_world-Sound;
}

-- Whatever connections, players and ticks do while the server runs, and in whatever order: if no command
-- that was handed on is of player 0 or out of the range of chunks, every chunk of the world is valid,
-- every cell is alive exactly if it has an owner, the map has one entry for each key, and the lists of
-- dirty cells name cells of their tiles.
pub serve-Sound :
    (answers : Answers) (events : List Event)
    → All Proper (serve events (start_main answers)).log
    → Sound (serve events (start_main answers)).server.world
serve-Sound answers events proper =
    let h =
      serve_keep IsServed step-IsServed events (start_main answers) (start_main-IsServed answers) in
    h.sound (All-left h.applied _ (rw h.log at proper)).0
