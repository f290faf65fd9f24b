-- ===== src/World/Debug.antt =====
-- server/src/World.cpp, `printDebugState`: the numbers that are printed, in their order. The text around
-- them is not modelled.
use multilife.Prelude.{ℕ, ◌+◌, if◌then◌else◌, List, [], map, length, upto, nat_eq}
use multilife.Prelude.Map.{find, insert}
use multilife.Types.{CellState, ChunkCoord, chunk_width, chunk_height}
use multilife.Chunk.{Chunk, get_cell, or_zero}
use multilife.Resources.{ResourceManager, get_balance, get_player_ids}
use multilife.World.{ChunkMap}

-- A tile has 4096 cells, so no counter of type `int` wraps.
unfoldable pub count_owner : CellState → List (ℕ × ℕ) → List (ℕ × ℕ)
count_owner cell counts =
    if cell.alive then insert cell.owner (or_zero (find cell.owner counts) + 1) counts else counts

unfoldable pub owner_counts : Chunk → List (ℕ × ℕ)
owner_counts c = upto chunk_width (λ x. upto chunk_height (λ y. count_owner (get_cell c x y))) []

unfoldable pub total_alive : Chunk → ℕ
total_alive c =
    upto chunk_width (λ x. upto chunk_height (λ y n. if (get_cell c x y).alive then n + 1 else n)) 0

pub record ChunkLine : Type 0 where
  pub coord : ChunkCoord
  pub alive : ℕ
  pub owners : List (ℕ × ℕ)

pub record DebugState : Type 0 where
  pub balances : List (ℕ × ℕ)
  pub total_chunks : ℕ
  pub chunks : List ChunkLine

unfoldable pub print_debug_state : ChunkMap → ResourceManager → DebugState
print_debug_state m r = record {
  balances = map (λ id. (id, get_balance r id)) (get_player_ids r);
  total_chunks = length m;
  chunks =
      map
        (λ (coord, chunk). record {
          coord = coord;
          alive = total_alive chunk;
          owners = owner_counts chunk;
        })
        m;
}
