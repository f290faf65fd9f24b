-- ===== src/World.antt =====
-- server/include/World.hpp and server/src/World.cpp: the chunks of the infinite world. The map's lock
-- is held through each method, so each is one step. Chunk coordinates are C++ `int`s, and a
-- sum that overflows is undefined; here sums have no bounds, which is the same where none overflows, and
-- World/Range says where that is. The conversion of a command's coordinate wraps as it does in C++.
pub mod Coordinates
pub mod Borders
pub mod Margin
pub mod Range
pub mod Exchange
pub mod Edits
pub mod Commands
pub mod Debug
use multilife.Prelude.{
  ℕ, ◌+◌, ◌-◌, ◌*◌, Bool, true, false, not, ◌&&◌, ◌||◌, ltb, leb, ◌==◌, if◌then◌else◌, List, [],
  ◌∷◌, ◌++◌, Option, none, some, map, upto, each,
}
use multilife.Prelude.Int.{
  ℤ, pos, negsuc, sub_ℕ, nonneg, tdiv, tmod, ◌+ℤ◌, ◌-ℤ◌, to_int32, pos_part,
}
use multilife.Prelude.Map.{find, insert}
use multilife.Types.{
  CellState, dead_cell, ChunkCoord, chunk_coord_eq, chunk_width, chunk_height, PlayerCommand,
  CommandType, place_cell, remove_cell, toggle_cell,
}
use multilife.Chunk.{Chunk, ghost_border, get_cell, set_cell, set_ghost_cell}
use multilife.Chunk
use multilife.Resources.{ResourceManager, place_cost, remove_award, try_spend, award}

abbrev pub ChunkMap : Type 0
ChunkMap = List (ChunkCoord × Chunk)

unfoldable pub get_or_create_chunk : ChunkCoord → ChunkMap → ChunkMap × Chunk
get_or_create_chunk coord m = elim (find coord m) [
  | none ↦ (insert coord Chunk.new m, Chunk.new)
  | some chunk ↦ (m, chunk)
]

unfoldable pub try_get_chunk : ChunkMap → ChunkCoord → Option Chunk
try_get_chunk m coord = find coord m

-- The quotient before its conversion to `int`.
unfoldable pub chunk_quotient : ℤ → ℕ → ℤ
chunk_quotient g size = if nonneg g then tdiv g size else tdiv (g -ℤ pos size +ℤ pos 1) size

unfoldable pub chunk_coordinate : ℤ → ℕ → ℤ
chunk_coordinate g size = to_int32 (chunk_quotient g size)

-- The result is not negative, and its conversion to `size_t` keeps it.
unfoldable pub local_coordinate : ℤ → ℕ → ℕ
local_coordinate g size = pos_part (tmod (tmod g size +ℤ pos size) size)

-- The `switch` of `applyCommands`: what becomes of the cell and of the balances.
unfoldable pub edit_cell :
    CommandType → ℕ → CellState → ResourceManager → CellState × ResourceManager
edit_cell place_cell player cell r =
    if cell.owner == 0
    then (let (r', paid) = try_spend r player place_cost in
        (if paid then record { alive = true; owner = player } else cell, r'))
    else (cell, r)
edit_cell remove_cell player cell r =
    if cell.owner == player
    then (let (r', paid) = award r player remove_award in (if paid then dead_cell else cell, r'))
    else (cell, r)
edit_cell toggle_cell player cell r =
    if cell.owner == 0 || cell.owner == player
    then (let (r', can_toggle) =
          if cell.alive then award r player remove_award else try_spend r player place_cost in
        (
          if can_toggle
              then record { alive = not cell.alive; owner = if not cell.alive then player else 0 }
              else cell,
          r',
        ))
    else (cell, r)

abbrev pub command_coord : PlayerCommand → ChunkCoord
command_coord cmd = record {
  x = chunk_coordinate cmd.x chunk_width;
  y = chunk_coordinate cmd.y chunk_height;
}

unfoldable pub apply_command :
    PlayerCommand → ChunkMap × ResourceManager → ChunkMap × ResourceManager
apply_command cmd (m, r) =
    let local_x = local_coordinate cmd.x chunk_width in
    let local_y = local_coordinate cmd.y chunk_height in
    let (m', chunk) = get_or_create_chunk (command_coord cmd) m in
    let (cell, r') = edit_cell cmd.type cmd.player_id (get_cell chunk local_x local_y) r in
    (insert (command_coord cmd) (set_cell chunk local_x local_y cell) m', r')

unfoldable pub apply_commands :
    List PlayerCommand → ChunkMap × ResourceManager → ChunkMap × ResourceManager
apply_commands commands s = each commands apply_command s

-- The loop variables dx and dy run from -1 to 1; `k` is dx + 1.
abbrev pub offset : ℕ → ℤ
offset k = sub_ℕ k 1

-- The sums are of `int`s, and are the code's where they do not overflow (World/Range).
abbrev pub neighbor : ChunkCoord → ℕ → ℕ → ChunkCoord
neighbor coord dx dy = record { x = coord.x +ℤ offset dx; y = coord.y +ℤ offset dy }

-- The two loops that look for a live cell; once one is found nothing changes the flag.
unfoldable pub has_live_cells : Chunk → Bool
has_live_cells c =
    upto chunk_height
      (λ y has. if has then has else upto chunk_width (λ x h. h || (get_cell c x y).alive) has)
      false

-- The body of the two loops.
unfoldable pub note_missing : ChunkMap → ChunkCoord → ℕ → ℕ → List ChunkCoord → List ChunkCoord
note_missing m coord dy dx acc =
    if dx == 1 && dy == 1 then acc else (elim (find (neighbor coord dx dy) m) [
      | none ↦ acc ++ (neighbor coord dx dy ∷ [])
      | some c ↦ acc
    ])

unfoldable pub missing_neighbors : ChunkMap → ChunkCoord → List ChunkCoord → List ChunkCoord
missing_neighbors m coord = upto 3 (λ dy. upto 3 (note_missing m coord dy))

-- The round of the loop for one entry of the map.
unfoldable pub note_entry : ChunkMap → ChunkCoord × Chunk → List ChunkCoord → List ChunkCoord
note_entry m (coord, chunk) acc =
    if not (has_live_cells chunk) then acc else missing_neighbors m coord acc

unfoldable pub chunks_to_create : ChunkMap → List ChunkCoord
chunks_to_create m = each m (note_entry m) []

unfoldable pub create : ChunkCoord → ChunkMap → ChunkMap
create coord m = (get_or_create_chunk coord m).0

unfoldable pub ensure_simulation_margin : ChunkMap → ChunkMap
ensure_simulation_margin m = each (chunks_to_create m) create m

unfoldable pub read_or_dead : Option Chunk → ℕ → ℕ → CellState
read_or_dead none x y = dead_cell
read_or_dead (some c) x y = get_cell c x y

-- What `exchangeBorders` writes into one chunk; `at dx dy` is the neighbour in that direction.
unfoldable pub set_borders : (ℕ → ℕ → Option Chunk) → Chunk → Chunk
set_borders at chunk =
    let rows =
      upto chunk_width
        (λ x c.
          set_ghost_cell
            (set_ghost_cell c (x + ghost_border) 0 (read_or_dead (at 1 0) x (chunk_height - 1)))
            (x + ghost_border) (chunk_height + ghost_border) (read_or_dead (at 1 2) x 0))
        chunk in
    let columns =
      upto chunk_height
        (λ y c.
          set_ghost_cell
            (set_ghost_cell c 0 (y + ghost_border) (read_or_dead (at 0 1) (chunk_width - 1) y))
            (chunk_width + ghost_border) (y + ghost_border) (read_or_dead (at 2 1) 0 y))
        rows in
    let north_west =
      set_ghost_cell columns 0 0 (read_or_dead (at 0 0) (chunk_width - 1) (chunk_height - 1)) in
    let north_east =
      set_ghost_cell north_west (chunk_width + ghost_border) 0
        (read_or_dead (at 2 0) 0 (chunk_height - 1)) in
    let south_west =
      set_ghost_cell north_east 0 (chunk_height + ghost_border)
        (read_or_dead (at 0 2) (chunk_width - 1) 0) in
    set_ghost_cell south_west (chunk_width + ghost_border) (chunk_height + ghost_border)
      (read_or_dead (at 2 2) 0 0)

-- One round of the loop over the map: the chunk is changed in place.
unfoldable pub exchange_chunk : ChunkCoord → ChunkMap → ChunkMap
exchange_chunk coord m = elim (find coord m) [
  | none ↦ m
  | some chunk ↦ insert coord (set_borders (λ dx dy. find (neighbor coord dx dy) m) chunk) m
]

abbrev pub coords : ChunkMap → List ChunkCoord
coords = map (λ entry. entry.0)

unfoldable pub exchange_borders : ChunkMap → ChunkMap
exchange_borders m =
    let margin = ensure_simulation_margin m in each (coords margin) exchange_chunk margin

unfoldable pub all_chunks_with_coords : ChunkMap → List (ChunkCoord × Chunk)
all_chunks_with_coords m = m
