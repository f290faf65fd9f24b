-- ===== src/Serializer.antt =====
-- server/include/WorldSerializer.hpp: the world, or what changed of it, as a payload of packets, one
-- behind the other. The fields of a header stand without a gap, so a packet is their concatenation.
pub mod Packets
pub mod Payload
use multilife.Prelude.{
  ℕ, zero, suc, ◌+◌, ◌-◌, ◌%◌, ◌^◌, min, Bool, true, false, not, if◌then◌else◌, List, [], ◌∷◌, ◌++◌,
  map, length, take, drop, upto,
}
use multilife.Prelude.Int.{ℤ, word_of}
use multilife.Types.{ChunkCoord, CellState, chunk_width, chunk_height}
use multilife.Chunk.{Chunk, DirtyCell, get_cell, is_dirty, clear_dirty}
use multilife.World.{ChunkMap}
use multilife.Wire.{write_le, max_cells_per_packet, flag_delta, flag_full}

pub record Entry : Type 0 where
  pub x : ℕ
  pub y : ℕ
  pub alive : ℕ
  pub owner : ℕ

-- `writeLE` of an `int32_t`.
abbrev pub write_int32 : ℤ → List ℕ
write_int32 a = write_le 4 (word_of (2 ^ 32) a)

unfoldable pub entry_bytes : Entry → List ℕ
entry_bytes e = e.x ∷ e.y ∷ e.alive ∷ write_le 8 e.owner

unfoldable pub entries_bytes : List Entry → List ℕ
entries_bytes [] = []
entries_bytes (e ∷ es) = entry_bytes e ++ entries_bytes es

unfoldable pub header_bytes : ℕ → ℕ → ChunkCoord → ℕ → List ℕ
header_bytes seq_num flags coord cell_count =
    write_le 4 seq_num
    ++ ((flags ∷ []) ++ (write_int32 coord.x ++ (write_int32 coord.y ++ write_le 2 cell_count)))

unfoldable pub packet_bytes : ℕ → ℕ → ChunkCoord → List Entry → List ℕ
packet_bytes seq_num flags coord entries =
    header_bytes seq_num flags coord (length entries % 2 ^ 16) ++ entries_bytes entries

-- The loop over `offset`, with what is left of the entries from there on. A round takes one entry at
-- least, so the number of entries is fuel enough.
unfoldable pub append_packets : ℕ → List ℕ → ℕ → ℕ → ChunkCoord → List Entry → List ℕ
append_packets zero out seq_num flags coord entries = out
append_packets (suc fuel) out seq_num flags coord [] = out
append_packets (suc fuel) out seq_num flags coord (e ∷ es) =
    let chunk_size = min max_cells_per_packet (length (e ∷ es)) in
    append_packets fuel (out ++ packet_bytes seq_num flags coord (take chunk_size (e ∷ es))) seq_num
      flags coord (drop chunk_size (e ∷ es))

unfoldable pub append_chunk : List ℕ → ℕ → ℕ → ChunkCoord → List Entry → List ℕ
append_chunk out seq_num flags coord entries =
    append_packets (length entries) out seq_num flags coord entries

unfoldable pub dirty_entry : Chunk → DirtyCell → Entry
dirty_entry c d =
    let state = get_cell c d.x d.y in
    record { x = d.x; y = d.y; alive = if state.alive then 1 else 0; owner = state.owner }

-- Returns the payload and the chunks, whose dirty lists are cleared.
unfoldable pub serialize_delta_from : ℕ → ChunkMap → List ℕ → List ℕ × ChunkMap
serialize_delta_from seq_num [] out = (out, [])
serialize_delta_from seq_num ((coord, chunk) ∷ m) out =
    let sent =
      append_chunk out seq_num flag_delta coord (map (dirty_entry chunk) chunk.dirty_cells) in
    let sent_chunk = if is_dirty chunk then clear_dirty chunk else chunk in
    let (out', m') = serialize_delta_from seq_num m (if is_dirty chunk then sent else out) in
    (out', (coord, sent_chunk) ∷ m')

unfoldable pub serialize_delta : ℕ → ChunkMap → List ℕ × ChunkMap
serialize_delta seq_num m = serialize_delta_from seq_num m []

unfoldable pub live_entries : Chunk → List Entry
live_entries c =
    upto chunk_height
      (λ cy. upto chunk_width (λ cx entries.
        let state = get_cell c cx cy in
        if state.alive
        then entries ++ (record { x = cx; y = cy; alive = 1; owner = state.owner } ∷ [])
        else entries))
      []

unfoldable pub serialize_full_from : ℕ → ChunkMap → List ℕ → List ℕ
serialize_full_from seq_num [] out = out
serialize_full_from seq_num ((coord, chunk) ∷ m) out =
    serialize_full_from seq_num m (append_chunk out seq_num flag_full coord (live_entries chunk))

unfoldable pub serialize_full : ℕ → ChunkMap → List ℕ
serialize_full seq_num m = serialize_full_from seq_num m []
