-- ===== src/Examples/Game.antt =====
-- The theorems on server/src/Chunk.cpp, server/src/World.cpp, server/src/ResourceManager.cpp and
-- server/src/GameServer.cpp at small games.
use multilife.World.Debug.{owner_counts}
use multilife.GameServer.Printed.{total-owner_counts}
use multilife.Prelude.{
  map, ℕ, ◌+◌, ◌%◌, ◌^◌, ◌<◌, ◌≡◌, ◌≢◌, ◌↔◌, ◌⊎◌, refl, true, false, ◌&&◌, if◌then◌else◌, [], ◌∷◌,
  In, none, some, Bool-cases, inl, inr, arith,
}
use multilife.Prelude.Int.{ℤ, pos, negsuc, ◌==ℤ◌}
use multilife.Prelude.Map.{find}
use multilife.Types.{
  ChunkCoord, dead_cell, coord_eq, chunk_coord_eq, place_cell, remove_cell, toggle_cell,
}
use multilife.Chunk
use multilife.Chunk.{
  Chunk, get_cell, set_cell, calculate_next, swap_buffers, current, dirty_cell,
  neighbor_alive_count, get_ghost_cell, get_live_count_by_player,
}
use multilife.Chunk.Cells.{IsValid}
use multilife.Chunk.Votes.{around, live_count}
use multilife.Chunk.Life.{Evolves, generation-Evolves, dirty_cells-calculate_next}
use multilife.Resources.{get_balance}
use multilife.Resources.Balances.{IsKnown, total}
use multilife.World.{apply_command, edit_cell, neighbor, ensure_simulation_margin}
use multilife.World.Edits.{Deal, edit_cell-Deal, remove_cell-zero}
use multilife.World.Commands.{cell_at-apply_command}
use multilife.World.Range.{IsWithin, AllWithin, ensure_simulation_margin-Present}
use multilife.Sender.{rewrite_snapshot_seq_nums, send_payload_to}
use multilife.Sender.Delivery.{rewrite_snapshot_seq_nums-serialize_full}
use multilife.Serializer.{serialize_full}
use multilife.Serializer.Payload.{encode, full_packets}
use multilife.GameServer.{simulate, on_tick}
use multilife.GameServer.Grid.{cell_at, neighbors_at}
use multilife.GameServer.Generation.{AllValid, simulate-Evolves}
use multilife.GameServer.Tick.{edited_world, on_tick-edited}
use multilife.Examples.{blinker, origin, small_world, two_players, place_far, game}

blinker-IsValid : IsValid blinker
unfolding set_cell Chunk.new
blinker-IsValid = omega arith

found :
    (k : ChunkCoord) (c : Chunk)
    → coord_eq origin k ≡ true
    → find k small_world ≡ some c
    → blinker ≡ c
unfolding find
found k c hit e = ground (arith, hit, e)

missed : (k : ChunkCoord) (c : Chunk) → coord_eq origin k ≡ false → find k small_world ≡ some c → ⊥
unfolding find
missed k c miss e = ground (arith, miss, e)

small_world-AllValid : AllValid small_world
unfolding find
small_world-AllValid k c e = elim (Bool-cases (coord_eq origin k)) [
  | inl hit ↦ let q : blinker ≡ c = found k c hit e in rw (← q) blinker-IsValid
  | inr miss ↦ absurd (missed k c miss e)
]

edit_cell-Deal_example :
    Deal 7 dead_cell two_players (edit_cell toggle_cell 7 dead_cell two_players)
edit_cell-Deal_example =
    edit_cell-Deal toggle_cell 7 dead_cell two_players (ground arith) (ground arith)

cell_at-apply_command_example :
    ((gx gy : ℤ)
      → cell_at (apply_command place_far (small_world, two_players)).0 gx gy ≡ (
          if gx ==ℤ negsuc 0 && gy ==ℤ pos 70
          then (edit_cell place_cell 7 (cell_at small_world (negsuc 0) (pos 70)) two_players).0
          else cell_at small_world gx gy))
    × ((apply_command place_far (small_world, two_players)).1
        ≡ (edit_cell place_cell 7 (cell_at small_world (negsuc 0) (pos 70)) two_players).1)
cell_at-apply_command_example =
    cell_at-apply_command place_far small_world two_players (ground arith)

simulate-Evolves_example :
    Evolves
      (cell_at small_world (pos 64) (pos 5))
      (neighbors_at small_world (pos 64) (pos 5))
      (cell_at (simulate small_world) (pos 64) (pos 5))
    × AllWithin 1 (ensure_simulation_margin small_world)
simulate-Evolves_example =
    simulate-Evolves small_world (pos 64) (pos 5) (((omega arith, omega arith), tt))
      small_world-AllValid

on_tick-edited_example :
    ((gx gy : ℤ) → cell_at (on_tick game).0.world gx gy ≡ cell_at (edited_world game).0 gx gy)
    × ((on_tick game).0.command_queue ≡ [])
    × ((on_tick game).0.broadcast_seq ≡ (41 + 1) % 2 ^ 32)
on_tick-edited_example = on_tick-edited game

generation-Evolves_example :
    Evolves
      (get_cell blinker 62 4)
      (around (current blinker) 62 4)
      (get_cell (swap_buffers (calculate_next blinker)) 62 4)
generation-Evolves_example =
    generation-Evolves blinker 62 4 blinker-IsValid (omega arith, omega arith)

dirty_cells-calculate_next_example : In (dirty_cell 62 4) (calculate_next blinker).dirty_cells ↔ (
    In (dirty_cell 62 4) blinker.dirty_cells
    ⊎ ((get_cell (swap_buffers (calculate_next blinker)) 62 4).alive
        ≢ (get_cell blinker 62 4).alive))
dirty_cells-calculate_next_example =
    dirty_cells-calculate_next blinker 62 4 blinker-IsValid (omega arith, omega arith)

some_live : 0 < live_count (around (current blinker) 62 4)
unfolding live_count set_cell Chunk.new
some_live = omega arith

blinker_here : find origin small_world ≡ some blinker
unfolding find
blinker_here = refl

blinker_live : (get_cell blinker 63 5).alive ≡ true
unfolding get_cell set_cell Chunk.new
blinker_live = refl

ensure_simulation_margin-Present_example :
    (find (neighbor origin 2 1) (ensure_simulation_margin small_world) ≢ none)
    × IsWithin 0 (neighbor origin 2 1)
    × AllWithin 0 (ensure_simulation_margin small_world)
ensure_simulation_margin-Present_example =
    ensure_simulation_margin-Present small_world origin blinker 63 5 2 1
      ((omega arith, omega arith), tt) blinker_here (omega arith, omega arith) blinker_live
      (omega arith) (omega arith) refl

zero_IsKnown : IsKnown 0 (record { balances = (0, 10) ∷ [] })
unfolding find
zero_IsKnown e = cc (e)

remove_cell-zero_example :
    ((edit_cell remove_cell 0 dead_cell (record { balances = (0, 10) ∷ [] })).0 ≡ dead_cell)
    × (get_balance (edit_cell remove_cell 0 dead_cell (record { balances = (0, 10) ∷ [] })).1 0
        ≡ (get_balance (record { balances = (0, 10) ∷ [] }) 0 + 1) % 2 ^ 64)
remove_cell-zero_example = remove_cell-zero (record { balances = (0, 10) ∷ [] }) zero_IsKnown

abbrev seven : ℕ
seven = 7

seven_known : seven ≢ 0
seven_known = omega arith

total-owner_counts_example :
    total seven (owner_counts blinker) ≡ total seven (get_live_count_by_player blinker)
total-owner_counts_example = total-owner_counts seven blinker seven_known

rewrite_snapshot_seq_nums-serialize_full_example :
    (rewrite_snapshot_seq_nums (serialize_full 0 small_world) 42 ≡ serialize_full 42 small_world)
    × (send_payload_to (serialize_full 42 small_world)
        ≡ some (map encode (full_packets 42 small_world)))
rewrite_snapshot_seq_nums-serialize_full_example =
    rewrite_snapshot_seq_nums-serialize_full 42 0 small_world
