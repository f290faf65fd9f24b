-- ===== src/ServerMain.antt =====
-- server/src/main.cpp: the server and its network manager at work together. The thread of the sockets takes
-- one handler at a time, and the thread of the scheduler calls the tick; a handler and a tick are one
-- step each, and the steps come in any order. What a client has written waits in its connection until a
-- read that asks for so many bytes completes. A handler that joins a player in the middle of a tick is
-- taken to run before it or after it.
pub mod Run
pub mod Completes
pub mod Frame
pub mod Posted
pub mod Sending
pub mod Soundness
pub mod Registry
pub mod Handlers
pub mod Players
pub mod Commands
pub mod Streams
pub mod Reads
pub mod Loop
pub mod Snapshots
pub mod Introductions
use multilife.Prelude.{
  ℕ, ◌-◌, ◌+◌, ◌%◌, ◌^◌, Bool, true, false, ltb, ◌==◌, if◌then◌else◌, List, [], ◌∷◌, ◌++◌, length,
  take, drop, each, Option, none, some, nat_eq,
}
use multilife.Prelude.Map.{find, insert}
use multilife.Types.{PlayerCommand}
use multilife.Wire.{handshake_size, msg_resync_req}
use multilife.Resources.{ResourceManager, add_player}
use multilife.GameServer
use multilife.GameServer.{
  GameServer, Effect, on_tick, on_commands_from_network, get_full_snapshot_for_seq,
}
use multilife.Sessions.{
  NetworkManager, on_handshake, remove_session, mark_session, is_command, read_command, body_size,
  do_udp_broadcast, broadcast_server_stats,
}
use multilife.Sessions.Listener
use multilife.Sessions.Listener.{Listener, Answers, on_accept}

-- What the pending read of a session waits for: the handshake, the type of a message, or the body of a
-- command. A session that has ended reads no more.
pub data Reading : Type 0 where
  handshake ended : Reading
  message : ℕ → Reading
  body : ℕ → ℕ → Reading

-- `wire` is what the client has written and no read has taken. `taken` is what the reads have taken and
-- `handed` are the commands that came of it; these two are only there to speak of them.
pub record Connection : Type 0 where
  pub peer : ℕ
  pub reading : Reading
  pub wire : List ℕ
  pub taken : List ℕ
  pub handed : List PlayerCommand

-- 1 for a read that waits.
abbrev waits : Reading → ℕ
waits handshake = 1
waits ended = 0
waits (message player_id) = 1
waits (body player_id msg_type) = 1

-- What waits in `m_ioc`: `doUdpBroadcast` with its payload and number, or the stats for every session.
pub data Work : Type 0 where
  udp_broadcast : List ℕ → ℕ → Work
  stats_broadcast : List ℕ → Work

-- `log` has every command that was handed on; it is only there to speak of them.
pub record System : Type 0 where
  pub server : GameServer
  pub manager : NetworkManager
  pub listener : Listener
  pub connections : List (ℕ × Connection)
  pub posted : List Work
  pub udp_sent : List (ℕ × List ℕ)
  pub tcp_written : List (ℕ × List ℕ)
  pub log : List PlayerCommand

abbrev pub no_sessions : NetworkManager
no_sessions = record { sessions = []; udp_endpoints = []; seq_num = 0 }

-- `GameServer::GameServer`, with the network manager that `main` makes.
abbrev pub new_server : GameServer
new_server = record {
  has_network = true;
  world = [];
  resources = record { balances = [] };
  command_queue = [];
  running = false;
  cached_full_snapshot = [];
  broadcast_seq = 0;
}

-- The connections that wait for bytes. Each session that is stored is one of them.
unfoldable pub open_reads : List (ℕ × Connection) → ℕ
open_reads [] = 0
open_reads ((i, c) ∷ cs) = waits c.reading + open_reads cs

-- What the server asks of its network manager in `start` and `stop`. The scheduler is the event of a tick.
unfoldable pub carry_out : Answers → Effect → System → System
carry_out answers Effect.network_started s = record s {
  listener = Listener.start answers s.listener;
}
carry_out answers Effect.network_stopped s =
    let others = open_reads s.connections - length s.manager.sessions in
    let (listener, manager) = (Listener.stop others (s.listener, s.manager)).0 in
    record s { listener = listener; manager = manager }
carry_out answers Effect.scheduler_started s = s
carry_out answers Effect.scheduler_stopped s = s
carry_out answers (Effect.world_update seq_num bytes) s = s
carry_out answers (Effect.server_stats bytes) s = s

abbrev pub new_system : System
new_system = record {
  server = new_server;
  manager = no_sessions;
  listener = Listener.new;
  connections = [];
  posted = [];
  udp_sent = [];
  tcp_written = [];
  log = [];
}

-- `main` up to its loop. Whether the sockets could be opened is not asked for.
unfoldable pub start_main : Answers → System
start_main answers =
    let (server, effects) = GameServer.start new_system.server in
    each effects (carry_out answers) (record new_system { server = server })

-- The callback for new players.
abbrev pub join_player : ℕ → GameServer → GameServer
join_player player_id g = record g { resources = (add_player g.resources player_id).0 }

-- `m_commandCallback`
unfoldable pub hand_on : PlayerCommand → System → System
hand_on cmd s = record s {
  server = on_commands_from_network (cmd ∷ []) s.server;
  log = s.log ++ (cmd ∷ []);
}

-- What a handler makes of the bytes it was given: the system, the next read, and the commands that it
-- handed on.
abbrev pub Handled : Type 0
Handled = System × (Reading × List PlayerCommand)

-- `Session::start`, the handler of its read.
unfoldable pub handle_handshake : ℕ → List ℕ → System → Handled
handle_handshake peer bytes s = elim (on_handshake bytes peer s.manager) [
  | none ↦ (s, (ended, []))
  | some (player_id, manager) ↦ (
    record s { server = join_player player_id s.server; manager = manager },
    (message player_id, []),
  )
]

-- `Session::readNextMessage`, the handler of the read of a type.
unfoldable pub handle_type : ℕ → ℕ → System → Handled
handle_type player_id msg_type s =
    if msg_type == msg_resync_req
    then (record s { manager = mark_session true player_id s.manager }, (message player_id, []))
    else (if is_command msg_type
        then (s, (body player_id msg_type, []))
        else (s, (message player_id, [])))

-- `Session::readNextMessage`, the handler of the read of a body.
unfoldable pub handle_body : ℕ → ℕ → List ℕ → System → Handled
handle_body player_id msg_type bytes s = elim (read_command player_id msg_type bytes) [
  | none ↦ (s, (message player_id, []))
  | some cmd ↦ (hand_on cmd s, (message player_id, cmd ∷ []))
]

-- What a connection is after a read of so many bytes.
abbrev pub after_read : ℕ → Connection → Reading × List PlayerCommand → Connection
after_read size c (reading, commands) = record c {
  reading = reading;
  wire = drop size c.wire;
  taken = c.taken ++ take size c.wire;
  handed = c.handed ++ commands;
}

abbrev pub store : ℕ → ℕ → Connection → Handled → System
store i size c (s, next) = record s {
  connections = insert i (after_read size c next) s.connections;
}

-- The pending read on the bytes of the wire: `none` if it has to wait for more, and otherwise the number of
-- bytes that it takes and what its handler makes of them.
unfoldable pub complete : Reading → ℕ → List ℕ → System → Option (ℕ × Handled)
complete handshake peer wire s =
    if ltb (length wire) handshake_size
    then none
    else some (handshake_size, handle_handshake peer (take handshake_size wire) s)
complete ended peer wire s = none
complete (message player_id) peer [] s = none
complete (message player_id) peer (b ∷ wire) s = some (1, handle_type player_id b s)
complete (body player_id msg_type) peer wire s =
    if ltb (length wire) body_size
    then none
    else some (body_size, handle_body player_id msg_type (take body_size wire) s)

unfoldable pub read_done : ℕ → Connection → System → System
read_done i c s = elim (complete c.reading c.peer c.wire s) [
  | none ↦ s
  | some (size, next) ↦ store i size c next
]

-- The handler of a read that fails, at the end of the stream or with any other error.
unfoldable pub forget : Reading → NetworkManager → NetworkManager
forget handshake n = n
forget ended n = n
forget (message player_id) n = remove_session player_id n
forget (body player_id msg_type) n = remove_session player_id n

unfoldable pub read_failed : ℕ → Connection → System → System
read_failed i c s = record s {
  manager = forget c.reading s.manager;
  connections = insert i (record c { reading = ended }) s.connections;
}

-- `Session::Session`, and `Session::start`, which begins to read.
abbrev pub new_session : ℕ → Connection
new_session peer = record { peer = peer; reading = handshake; wire = []; taken = []; handed = [] }

-- The handler of an accept, on the connection numbered `i`, which is a new one.
unfoldable pub accept_done : ℕ → ℕ → System → System
accept_done i peer s =
    if s.listener.accepting
    then (let (started, listener) = on_accept false s.listener in
        record s {
          listener = listener;
          connections =
              if started then insert i (new_session peer) s.connections else s.connections;
        })
    else s
