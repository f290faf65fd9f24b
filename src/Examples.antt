-- ===== src/Examples.antt =====
-- Small worlds, balances and packets, and the theorems at them.
pub mod Game
pub mod Protocol
pub mod Tasks
pub mod Start
pub mod Window
pub mod Service
pub mod Mirror
pub mod Grid
pub mod Server
use multilife.Prelude.{ℕ, List, [], ◌∷◌, true, false, arith, nat_eq}
use multilife.Prelude.Int.{pos, negsuc}
use multilife.Types.{CellState, ChunkCoord, PlayerCommand, place_cell, toggle_cell}
use multilife.Chunk
use multilife.Chunk.{Chunk, set_cell}
use multilife.Resources.{ResourceManager, get_balance}
use multilife.Resources.Balances.{Fits}
use multilife.Prelude.Map.{find}
use multilife.World.{ChunkMap}
use multilife.GameServer.{GameServer}

abbrev pub cell_of : ℕ → CellState
cell_of player_id = record { alive = true; owner = player_id }

-- Three cells in a row, at the right border.
abbrev pub blinker : Chunk
blinker =
    set_cell (set_cell (set_cell Chunk.new 62 5 (cell_of 7)) 63 5 (cell_of 7)) 61 5 (cell_of 8)

abbrev pub origin : ChunkCoord
origin = record { x = pos 0; y = pos 0 }

abbrev pub small_world : ChunkMap
small_world = (origin, blinker) ∷ []

abbrev pub two_players : ResourceManager
two_players = record { balances = (7, 10) ∷ (8, 1) ∷ [] }

pub two_players-Fits : Fits two_players
unfolding get_balance find
two_players-Fits p = ground arith

abbrev pub place_far : PlayerCommand
place_far = record { player_id = 7; type = place_cell; x = negsuc 0; y = pos 70 }

abbrev pub game : GameServer
game = record {
  has_network = true;
  world = small_world;
  resources = two_players;
  command_queue = place_far ∷ [];
  running = true;
  cached_full_snapshot = [];
  broadcast_seq = 41;
}

abbrev pub quiet_game : GameServer
quiet_game = record game { command_queue = [] }
