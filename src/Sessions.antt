-- ===== src/Sessions.antt =====
-- server/include/BoostNetworkManager.hpp and server/src/BoostNetworkManager.cpp: the sessions of the
-- players. Boost.Asio is not modelled: a session's bytes come as a list, a read that reaches its end
-- fails with end of file, and an endpoint is an opaque number. What is sent is returned, in order.
pub mod Command
pub mod Stream
pub mod Listener
use multilife.Prelude.{
  ℕ, zero, suc, ◌+◌, ◌%◌, ◌^◌, Bool, true, false, ◌||◌, ltb, ◌==◌, if◌then◌else◌, List, [], ◌∷◌,
  map, Option, none, some, length, take, drop, nat_eq,
}
use multilife.Prelude.Int.{signed_of}
use multilife.Prelude.Map.{find, insert, erase}
use multilife.Types.{PlayerCommand, CommandType, place_cell, remove_cell, toggle_cell}
use multilife.Wire.{
  read_le, magic, handshake_size, cmd_place, cmd_remove, cmd_toggle, msg_resync_req,
}

pub record Session : Type 0 where
  pub player_id : ℕ
  pub handshake_done : Bool
  pub needs_full_snapshot : Bool

pub record NetworkManager : Type 0 where
  pub sessions : List (ℕ × Session)
  pub udp_endpoints : List (ℕ × ℕ)
  pub seq_num : ℕ

-- `Session::start`, once the twelve bytes are read. `none` is a bad magic number: the socket is closed.
unfoldable pub on_handshake : List ℕ → ℕ → NetworkManager → Option (ℕ × NetworkManager)
on_handshake handshake peer n =
    if read_le 4 handshake == magic
    then (let player_id = read_le 8 (drop 4 handshake) in
        some (
          player_id,
          record n {
            sessions =
                insert player_id
                  (record {
                    player_id = player_id;
                    handshake_done = true;
                    needs_full_snapshot = true;
                  })
                  n.sessions;
            udp_endpoints = insert player_id peer n.udp_endpoints;
          },
        ))
    else none

unfoldable pub remove_session : ℕ → NetworkManager → NetworkManager
remove_session id n = record n {
  sessions = erase id n.sessions;
  udp_endpoints = erase id n.udp_endpoints;
}

abbrev pub set_needs_full : Bool → Session → Session
set_needs_full b s = record s { needs_full_snapshot = b }

-- `m_sessions.find(id)`, and the flag of the session that is found.
unfoldable pub mark_session : Bool → ℕ → NetworkManager → NetworkManager
mark_session b id n = elim (find id n.sessions) [
  | none ↦ n
  | some s ↦ record n { sessions = insert id (set_needs_full b s) n.sessions }
]

abbrev pub is_command : ℕ → Bool
is_command msg_type = msg_type == cmd_place || (msg_type == cmd_remove || msg_type == cmd_toggle)

unfoldable pub command_type : ℕ → CommandType
command_type msg_type =
    if msg_type == cmd_place
    then place_cell
    else (if msg_type == cmd_remove then remove_cell else toggle_cell)

abbrev pub body_size : ℕ
body_size = 24

-- A command's body: `none` if it names another player than the session's.
unfoldable pub read_command : ℕ → ℕ → List ℕ → Option PlayerCommand
read_command player_id msg_type body =
    if read_le 8 body == player_id
    then some (record {
      player_id = player_id;
      type = command_type msg_type;
      x = signed_of (2 ^ 64) (read_le 8 (drop 8 body));
      y = signed_of (2 ^ 64) (read_le 8 (drop 16 body));
    })
    else none

abbrev pub prepend_command :
    Option PlayerCommand → List PlayerCommand × NetworkManager → List PlayerCommand × NetworkManager
prepend_command none r = r
prepend_command (some c) r = (c ∷ r.0, r.1)

-- `readNextMessage` until the stream ends: the commands that are handed on, and the manager then. A
-- message takes a byte at least, so one round more than there are bytes is fuel enough.
unfoldable pub read_messages : ℕ → ℕ → List ℕ → NetworkManager → List PlayerCommand × NetworkManager
read_messages zero player_id stream n = ([], n)
read_messages (suc fuel) player_id [] n = ([], remove_session player_id n)
read_messages (suc fuel) player_id (msg_type ∷ stream) n =
    let resynced = read_messages fuel player_id stream (mark_session true player_id n) in
    let after_body =
      prepend_command (read_command player_id msg_type (take body_size stream))
        (read_messages fuel player_id (drop body_size stream) n) in
    let ignored = read_messages fuel player_id stream n in
    if msg_type == msg_resync_req
    then resynced
    else (if is_command msg_type
        then (if ltb (length stream) body_size
            then ([], remove_session player_id n)
            else after_body)
        else ignored)

-- A connection from its handshake to its end: the players for whom `m_addPlayerCallback` is called, the
-- commands that are handed on, and the manager then.
unfoldable pub run_session :
    List ℕ → ℕ → NetworkManager → List ℕ × (List PlayerCommand × NetworkManager)
run_session stream peer n =
    if ltb (length stream) handshake_size
    then ([], ([], n))
    else (elim (on_handshake (take handshake_size stream) peer n) [
      | none ↦ ([], ([], n))
      | some (player_id, joined) ↦ (
        player_id ∷ [],
        read_messages (length stream + 1) player_id (drop handshake_size stream) joined,
      )
    ])

pub record SessionInfo : Type 0 where
  pub id : ℕ
  pub endpoint : ℕ
  pub needs_full : Bool

unfoldable pub session_infos : List (ℕ × Session) → List (ℕ × ℕ) → List SessionInfo
session_infos [] endpoints = []
session_infos ((id, s) ∷ sessions) endpoints = elim (find id endpoints) [
  | none ↦ session_infos sessions endpoints
  | some ep ↦
      record { id = id; endpoint = ep; needs_full = s.needs_full_snapshot }
      ∷ session_infos sessions endpoints
]

-- The loop of `doUdpBroadcast`: the payloads that are handed to `sendPayloadTo`. `full` is what the
-- provider of snapshots answers.
unfoldable pub send_infos :
    List ℕ → List ℕ → List SessionInfo → NetworkManager → List (ℕ × List ℕ) × NetworkManager
send_infos full delta [] n = ([], n)
send_infos full delta (info ∷ infos) n =
    let sent = if info.needs_full then mark_session false info.id n else n in
    let rest = send_infos full delta infos sent in
    ((info.endpoint, if info.needs_full then full else delta) ∷ rest.0, rest.1)

-- `doUdpBroadcast`: every session that has an endpoint, with what `m_fullSnapshotProvider` answers.
abbrev pub do_udp_broadcast :
    (ℕ → List ℕ) → List ℕ → ℕ → NetworkManager → List (ℕ × List ℕ) × NetworkManager
do_udp_broadcast provider delta seq n =
    send_infos (provider seq) delta (session_infos n.sessions n.udp_endpoints) n

-- `broadcastWorldUpdate`, with the work that it posts. `provider` is `m_fullSnapshotProvider`.
unfoldable pub broadcast_world_update :
    (ℕ → List ℕ) → List ℕ → NetworkManager → List (ℕ × List ℕ) × NetworkManager
broadcast_world_update provider update n =
    if length update == 0
    then ([], n)
    else (let seq = (n.seq_num + 1) % 2 ^ 32 in
        do_udp_broadcast provider update seq (record n { seq_num = seq }))

-- `broadcastServerStats`, with the work that it posts: what is written to each session's socket.
unfoldable pub broadcast_server_stats : List ℕ → NetworkManager → List (ℕ × List ℕ)
broadcast_server_stats [] n = []
broadcast_server_stats (b ∷ payload) n = map (λ (id, session). (id, b ∷ payload)) n.sessions

-- `stop`, where the manager runs: all sockets are closed and all sessions forgotten.
unfoldable pub stop : NetworkManager → NetworkManager
stop n = record n { sessions = []; udp_endpoints = [] }
