-- ===== src/Client/Network.antt =====
-- client/include/GameNetworkClient.h and client/src/GameNetworkClient.cpp: the client's connection.
-- Qt's sockets are not modelled: a handler is told what they answer, and returns what it asks of them,
-- what it writes, and what it emits, in order.
pub mod Reading
use multilife.Prelude.{
  ℕ, zero, suc, ◌+◌, ◌%◌, ◌^◌, Bool, true, false, not, ◌&&◌, ◌||◌, ◌==◌, if◌then◌else◌, List, [],
  ◌∷◌, ◌++◌, map, Option, none, some, length,
}
use multilife.Prelude.Int.{ℤ, pos, word_of}
use multilife.Wire.{write_le, magic, cmd_place, cmd_remove, cmd_toggle, msg_resync_req}
use multilife.Client.WorldModel.{AliveCell}
use multilife.Client.Parsers.{
  UdpCellUpdate, ParsedUdpWorldPacket, ServerStatsEntry, parse_udp_world_packet,
  try_parse_server_stats_message,
}

pub data SocketState : Type 0 where
  unconnected connecting connected : SocketState

pub record NetworkClient : Type 0 where
  pub host : ℕ
  pub tcp_port : ℕ
  pub udp_port : ℕ
  pub player_id : ℕ
  pub manual_disconnect : Bool
  pub reconnect_active : Bool
  pub last_seq_num : Option ℕ
  pub tcp_read_buffer : List ℕ

pub data Effect : Type 0 where
  udp_close tcp_abort tcp_disconnect : Effect
  tcp_connect : ℕ → ℕ → Effect
  tcp_write : List ℕ → Effect
  state_changed : Bool → Effect
  stats_updated : ℕ → List ServerStatsEntry → Effect
  world_update : ℕ → Bool → ℤ → ℤ → List AliveCell → Effect

abbrev pub is_connected : SocketState → Bool
is_connected unconnected = false
is_connected connecting = false
is_connected connected = true

abbrev pub is_unconnected : SocketState → Bool
is_unconnected unconnected = true
is_unconnected connecting = false
is_unconnected connected = false

abbrev pub when : Bool → Effect → List Effect
when b e = if b then e ∷ [] else []

unfoldable pub cancel_reconnect : NetworkClient → NetworkClient
cancel_reconnect c = if c.reconnect_active then record c { reconnect_active = false } else c

unfoldable pub schedule_reconnect : NetworkClient → NetworkClient
schedule_reconnect c =
    if c.manual_disconnect || c.reconnect_active then c else record c { reconnect_active = true }

-- `udp` and `tcp` are the sockets' states when the function is entered.
unfoldable pub connect_to_server :
    SocketState → SocketState → ℕ → ℕ → ℕ → ℕ → NetworkClient → NetworkClient × List Effect
connect_to_server udp tcp host tcp_port udp_port player_id c = (
  record c {
    host = host;
    tcp_port = tcp_port;
    udp_port = udp_port;
    player_id = player_id;
    manual_disconnect = false;
    last_seq_num = none;
    tcp_read_buffer = [];
  },
  when (not (is_unconnected udp)) udp_close
      ++ (when (not (is_unconnected tcp)) tcp_abort
          ++ (state_changed false ∷ tcp_connect host tcp_port ∷ [])),
)

-- `tcp` is the socket's state after `disconnectFromHost`.
unfoldable pub disconnect_from_server : SocketState → NetworkClient → NetworkClient × List Effect
disconnect_from_server tcp c = (
  record (cancel_reconnect (record c { manual_disconnect = true })) {
    last_seq_num = none;
    tcp_read_buffer = [];
  },
  udp_close
      ∷ tcp_disconnect
      ∷ (when (not (is_unconnected tcp)) tcp_abort ++ (state_changed false ∷ [])),
)

unfoldable pub command_bytes : ℕ → ℕ → ℤ → ℤ → List ℕ
command_bytes player_id type x y =
    type
    ∷ (write_le 8 player_id ++ (write_le 8 (word_of (2 ^ 64) x) ++ write_le 8 (word_of (2 ^ 64) y)))

unfoldable pub send_command : SocketState → NetworkClient → ℕ → ℤ → ℤ → List Effect
send_command tcp c type x y =
    if not (is_connected tcp) then [] else tcp_write (command_bytes c.player_id type x y) ∷ []

unfoldable pub send_place_cell : SocketState → NetworkClient → ℤ → ℤ → List Effect
send_place_cell tcp c x y = send_command tcp c cmd_place x y

unfoldable pub send_remove_cell : SocketState → NetworkClient → ℤ → ℤ → List Effect
send_remove_cell tcp c x y = send_command tcp c cmd_remove x y

unfoldable pub send_toggle_cell : SocketState → NetworkClient → ℤ → ℤ → List Effect
send_toggle_cell tcp c x y = send_command tcp c cmd_toggle x y

unfoldable pub send_resync : SocketState → List Effect
send_resync tcp = if not (is_connected tcp) then [] else tcp_write (msg_resync_req ∷ []) ∷ []

unfoldable pub handshake_bytes : ℕ → List ℕ
handshake_bytes player_id = write_le 4 magic ++ write_le 8 player_id

-- `bound` is what the UDP socket's `bind` answers.
unfoldable pub on_tcp_connected : Bool → NetworkClient → NetworkClient × List Effect
on_tcp_connected bound c =
    let c' = cancel_reconnect c in
    let hello = tcp_write (handshake_bytes c.player_id) in
    if bound
    then (c', hello ∷ state_changed true ∷ [])
    else (schedule_reconnect c', hello ∷ state_changed false ∷ [])

unfoldable pub on_tcp_disconnected : NetworkClient → NetworkClient × List Effect
on_tcp_disconnected c =
    let c' = record c { tcp_read_buffer = [] } in
    if not c.manual_disconnect
    then (schedule_reconnect c', udp_close ∷ state_changed false ∷ [])
    else (c', udp_close ∷ [])

unfoldable pub on_tcp_error : Bool → NetworkClient → NetworkClient × List Effect
on_tcp_error remote_host_closed c =
    if remote_host_closed
    then (c, [])
    else (if not c.manual_disconnect then schedule_reconnect c else c, state_changed false ∷ [])

unfoldable pub reconnect_tick : SocketState → NetworkClient → NetworkClient × List Effect
reconnect_tick tcp c =
    if is_connected tcp
    then (cancel_reconnect c, [])
    else (c, when (not (is_unconnected tcp)) tcp_abort ++ (tcp_connect c.host c.tcp_port ∷ []))

-- `cell.alive ? cell.owner : 0`
abbrev pub alive_cell : UdpCellUpdate → AliveCell
alive_cell u = record {
  x = pos u.local_x;
  y = pos u.local_y;
  owner = if u.alive then u.owner else 0;
}

-- A packet that is not a snapshot and does not follow the last one by one.
abbrev pub is_gap : Option ℕ → ParsedUdpWorldPacket → Bool
is_gap none p = false
is_gap (some last) p = not p.full_snapshot && not (p.seq_num == (last + 1) % 2 ^ 32)

unfoldable pub apply_datagram : SocketState → List ℕ → NetworkClient → NetworkClient × List Effect
unfolding send_resync
apply_datagram tcp datagram c = elim (parse_udp_world_packet datagram) [
  | none ↦ (c, [])
  | some p ↦ (
    record c { last_seq_num = some p.seq_num },
    (if is_gap c.last_seq_num p then send_resync tcp else [])
        ++ (world_update p.seq_num p.full_snapshot p.chunk_x p.chunk_y (map alive_cell p.cells)
            ∷ []),
  )
]

-- The loop of `onTcpReadyRead`. A message takes seven bytes at least, so the buffer's length is fuel
-- enough.
unfoldable pub read_stats : ℕ → List ℕ → List ℕ × List Effect
read_stats zero buffer = (buffer, [])
read_stats (suc fuel) buffer =
    let (parsed, rest) = try_parse_server_stats_message buffer in
    let more = read_stats fuel rest in
    elim parsed [
      | none ↦ (rest, [])
      | some msg ↦ (more.0, stats_updated msg.generation msg.players ∷ more.1)
    ]

unfoldable pub on_tcp_ready_read : List ℕ → NetworkClient → NetworkClient × List Effect
on_tcp_ready_read received c =
    let buffer = c.tcp_read_buffer ++ received in
    let (left, effects) = read_stats (length buffer + 1) buffer in
    (record c { tcp_read_buffer = left }, effects)
