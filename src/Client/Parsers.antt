-- ===== src/Client/Parsers.antt =====
-- client/include/ClientParsers.h and client/src/ClientParsers.cpp: datagrams and the stream of server
-- statistics. A `QByteArray` is a list of bytes.
pub mod Stream
use multilife.Prelude.{
  ℕ, zero, suc, ◌+◌, ◌*◌, ◌^◌, Bool, not, ltb, ◌==◌, if◌then◌else◌, List, [], ◌∷◌, Option, none,
  some, length, get_or, drop,
}
use multilife.Prelude.Int.{ℤ, signed_of}
use multilife.Wire.{
  read_le, udp_header, udp_cell_entry, off_seq_num, off_flags, off_chunk_x, off_chunk_y,
  off_cell_count, flag_full, msg_server_stats, server_stats_header, server_stats_entry,
}

pub record UdpCellUpdate : Type 0 where
  pub local_x : ℕ
  pub local_y : ℕ
  pub alive : Bool
  pub owner : ℕ

pub record ParsedUdpWorldPacket : Type 0 where
  pub seq_num : ℕ
  pub full_snapshot : Bool
  pub chunk_x : ℤ
  pub chunk_y : ℤ
  pub cells : List UdpCellUpdate

pub record ServerStatsEntry : Type 0 where
  pub player_id : ℕ
  pub balance : ℕ
  pub live_cells : ℕ

pub record ParsedServerStatsMessage : Type 0 where
  pub generation : ℕ
  pub players : List ServerStatsEntry

-- `readLE` of an `int32_t`.
abbrev pub read_int32 : List ℕ → ℤ
read_int32 bs = signed_of (2 ^ 32) (read_le 4 bs)

unfoldable pub parse_cells : ℕ → List ℕ → List UdpCellUpdate
parse_cells zero cursor = []
parse_cells (suc n) cursor =
    record {
      local_x = get_or cursor 0 0;
      local_y = get_or cursor 1 0;
      alive = not (get_or cursor 2 0 == 0);
      owner = read_le 8 (drop 3 cursor);
    }
    ∷ parse_cells n (drop udp_cell_entry cursor)

unfoldable pub parse_udp_world_packet : List ℕ → Option ParsedUdpWorldPacket
parse_udp_world_packet datagram =
    if ltb (length datagram) udp_header
    then none
    else (let cell_count = read_le 2 (drop off_cell_count datagram) in
        if ltb (length datagram) (udp_header + cell_count * udp_cell_entry)
        then none
        else some (record {
          seq_num = read_le 4 (drop off_seq_num datagram);
          full_snapshot = get_or datagram off_flags 0 == flag_full;
          chunk_x = read_int32 (drop off_chunk_x datagram);
          chunk_y = read_int32 (drop off_chunk_y datagram);
          cells = parse_cells cell_count (drop udp_header datagram);
        }))

unfoldable pub parse_players : ℕ → List ℕ → List ServerStatsEntry
parse_players zero cursor = []
parse_players (suc n) cursor =
    record {
      player_id = read_le 8 cursor;
      balance = read_le 8 (drop 8 cursor);
      live_cells = read_le 8 (drop 16 cursor);
    }
    ∷ parse_players n (drop server_stats_entry cursor)

-- A message that starts at the front of the buffer, with what is left of the buffer.
unfoldable pub parse_stats_at : List ℕ → Option ParsedServerStatsMessage × List ℕ
parse_stats_at buffer =
    let player_count = read_le 2 (drop 5 buffer) in
    let packet_size = server_stats_header + player_count * server_stats_entry in
    if ltb (length buffer) packet_size then (none, buffer) else (
      some (record {
        generation = read_le 4 (drop 1 buffer);
        players = parse_players player_count (drop server_stats_header buffer);
      }),
      drop packet_size buffer,
    )

-- The loop: a byte that starts no message is removed.
unfoldable pub try_parse_server_stats_message : List ℕ → Option ParsedServerStatsMessage × List ℕ
try_parse_server_stats_message [] = (none, [])
try_parse_server_stats_message (b ∷ bs) =
    let skipped = try_parse_server_stats_message bs in
    if ltb (length (b ∷ bs)) server_stats_header
    then (none, b ∷ bs)
    else (if b == msg_server_stats then parse_stats_at (b ∷ bs) else skipped)
