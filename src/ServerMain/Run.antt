-- ===== src/ServerMain/Run.antt =====
-- server/src/main.cpp, with server/src/BoostNetworkManager.cpp: what happens while the server runs, as a list of
-- events, and the loop of `main`.
use multilife.Prelude.{
  ℕ, ◌+◌, ◌%◌, ◌^◌, if◌then◌else◌, List, [], ◌∷◌, ◌++◌, each, none, some, nat_eq,
}
use multilife.Prelude.Map.{find, insert}
use multilife.GameServer
use multilife.GameServer.{GameServer, Effect, on_tick, get_full_snapshot_for_seq}
use multilife.Sessions.{do_udp_broadcast, broadcast_server_stats}
use multilife.Sessions.Listener.{Answers}
use multilife.ServerMain.{
  System, Connection, Work, udp_broadcast, stats_broadcast, accept_done, read_done, read_failed,
  carry_out,
}

-- What the network manager does at once in a call of the tick; the rest it posts.
unfoldable pub post_effect : Effect → System → System
post_effect (Effect.world_update seq_num []) s = s
post_effect (Effect.world_update seq_num (b ∷ bytes)) s =
    let seq = (s.manager.seq_num + 1) % 2 ^ 32 in
    record s {
      manager = record s.manager { seq_num = seq };
      posted = s.posted ++ (udp_broadcast (b ∷ bytes) seq ∷ []);
    }
post_effect (Effect.server_stats []) s = s
post_effect (Effect.server_stats (b ∷ bytes)) s = record s {
  posted = s.posted ++ (stats_broadcast (b ∷ bytes) ∷ []);
}
post_effect Effect.network_started s = s
post_effect Effect.network_stopped s = s
post_effect Effect.scheduler_started s = s
post_effect Effect.scheduler_stopped s = s

unfoldable pub tick : System → System
tick s = each (on_tick s.server).1 post_effect (record s { server = (on_tick s.server).0 })

-- A piece of posted work. The snapshot is the one of the server as it is now.
unfoldable pub do_work : Work → System → System
do_work (udp_broadcast payload seq) s =
    let (sent, manager) =
      do_udp_broadcast (get_full_snapshot_for_seq s.server) payload seq s.manager in
    record s { manager = manager; udp_sent = s.udp_sent ++ sent }
do_work (stats_broadcast payload) s = record s {
  tcp_written = s.tcp_written ++ broadcast_server_stats payload s.manager;
}

-- The thread of the sockets takes the oldest piece of work.
unfoldable pub work_done : List Work → System → System
work_done [] s = s
work_done (w ∷ posted) s =
    if s.listener.io_thread then do_work w (record s { posted = posted }) else s

-- What happens next: an accept, bytes that a client writes, a read that completes or fails, a piece of
-- posted work, or a tick.
pub data Event : Type 0 where
  accepted : ℕ → ℕ → Event
  written : ℕ → List ℕ → Event
  read : ℕ → Event
  failed : ℕ → Event
  worked ticked : Event

-- The connection, if there is one with the number.
unfoldable pub at_connection : ℕ → (Connection → System → System) → System → System
at_connection i act s = elim (find i s.connections) [ none ↦ s | some c ↦ act c s ]

unfoldable pub write_bytes : ℕ → List ℕ → Connection → System → System
write_bytes i bytes c s = record s {
  connections = insert i (record c { wire = c.wire ++ bytes }) s.connections;
}

unfoldable pub step : Event → System → System
step (accepted i peer) s = elim (find i s.connections) [ none ↦ accept_done i peer s | some c ↦ s ]
step (written i bytes) s = at_connection i (write_bytes i bytes) s
step (read i) s = at_connection i (read_done i) s
step (failed i) s = at_connection i (read_failed i) s
step worked s = work_done s.posted s
step ticked s = tick s

-- Any number of events, in the order in which they happen.
unfoldable pub serve : List Event → System → System
serve [] s = s
serve (e ∷ events) s = serve events (step e s)

-- A round of the loop of `main`, which sleeps while the server runs and stops it once it does not.
unfoldable pub main_round : Answers → System → System
main_round answers s =
    if s.server.running
    then s
    else (let (server, effects) = GameServer.stop s.server in
        each effects (carry_out answers) (record s { server = server }))
