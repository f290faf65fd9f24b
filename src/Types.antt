-- ===== src/Types.antt =====
-- server/include/Types.hpp and server/include/PlayerCommand.hpp: the values that the server's parts
-- exchange. A player's id is a natural number; a coordinate of a chunk or a cell is an integer.
use multilife.Prelude.{ℕ, ◌+◌, ◌*◌, Bool, true, false, ◌&&◌, ◌≡◌, ◌↔◌, Eq, arith}
use multilife.Prelude.Int.{ℤ, ◌==ℤ◌}

pub record CellState : Type 0 where
  pub alive : Bool
  pub owner : ℕ

-- `CellState{}`: dead, and owner 0 is "no owner".
abbrev pub dead_cell : CellState
dead_cell = record { alive = false; owner = 0 }

pub record ChunkCoord : Type 0 where
  pub x : ℤ
  pub y : ℤ

abbrev pub coord_eq : ChunkCoord → ChunkCoord → Bool
coord_eq a b = a.x ==ℤ b.x && a.y ==ℤ b.y

pub coord_eq_iff : (a b : ChunkCoord) → (coord_eq a b ≡ true) ↔ (a ≡ b)
coord_eq_iff a b = ground arith

instance abbrev pub chunk_coord_eq : Eq ChunkCoord
chunk_coord_eq = record { beq = coord_eq; beq_iff = coord_eq_iff }

abbrev pub chunk_width : ℕ
chunk_width = 64

abbrev pub chunk_height : ℕ
chunk_height = 64

abbrev pub to_index : ℕ → ℕ → ℕ → ℕ
to_index x y width = y * width + x

pub data CommandType : Type 0 where
  place_cell remove_cell toggle_cell : CommandType

pub record PlayerCommand : Type 0 where
  pub player_id : ℕ
  pub type : CommandType
  pub x : ℤ
  pub y : ℤ
