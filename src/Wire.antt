-- ===== src/Wire.antt =====
-- server/include/Protocol.hpp and client/include/ClientProtocol.h, the constants of the protocol, with
-- `readLE` and `writeLE`, which copy a number's bytes on a little-endian host. A byte is a number below
-- 256. Both sides give the constants the same values, so they stand here once.
mod Bytes
unfoldable pub use Bytes.*
use multilife.Prelude.{ℕ, ◌+◌, ◌-◌, ◌/◌}

abbrev pub magic : ℕ
magic = 0x4D4C4946

abbrev pub handshake_size : ℕ
handshake_size = 12

abbrev pub cmd_place : ℕ
cmd_place = 0x00

abbrev pub cmd_remove : ℕ
cmd_remove = 0x01

abbrev pub cmd_toggle : ℕ
cmd_toggle = 0x02

abbrev pub command_size : ℕ
command_size = 25

abbrev pub msg_resync_req : ℕ
msg_resync_req = 0x10

abbrev pub msg_server_stats : ℕ
msg_server_stats = 0x20

abbrev pub server_stats_header : ℕ
server_stats_header = 7

abbrev pub server_stats_entry : ℕ
server_stats_entry = 24

abbrev pub udp_header : ℕ
udp_header = 15

abbrev pub udp_cell_entry : ℕ
udp_cell_entry = 11

abbrev pub max_udp_payload : ℕ
max_udp_payload = 1400

abbrev pub max_cells_per_packet : ℕ
max_cells_per_packet = (max_udp_payload - udp_header) / udp_cell_entry

abbrev pub off_seq_num : ℕ
off_seq_num = 0

abbrev pub off_flags : ℕ
off_flags = 4

abbrev pub off_chunk_x : ℕ
off_chunk_x = 5

abbrev pub off_chunk_y : ℕ
off_chunk_y = 9

abbrev pub off_cell_count : ℕ
off_cell_count = 13

abbrev pub flag_delta : ℕ
flag_delta = 0x00

abbrev pub flag_full : ℕ
flag_full = 0x01
