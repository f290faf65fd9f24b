-- ===== src/Chunk/Cells.antt =====
-- server/src/Chunk.cpp: reads and writes of single cells, inner and ghost, and the two buffers.
use multilife.Prelude.{ℕ, ◌+◌, ◌≤◌, ◌<◌, ◌≡◌, ◌⊎◌, ◌&&◌, ◌==◌, if◌then◌else◌, arith}
use multilife.Types.{CellState, chunk_width, chunk_height}
use multilife.Chunk.{
  Chunk, index, total_width, total_height, total_cells, get_cell, set_cell, get_ghost_cell,
  set_ghost_cell, swap_buffers, other_buffer,
}

-- One of the two buffers is current.
abbrev pub IsValid : Chunk → Type 0
IsValid c = c.current_buffer_index ≤ 1

abbrev pub Inside : ℕ → ℕ → Type 0
Inside x y = (x < chunk_width) × (y < chunk_height)

-- Storage coordinates that are on the ghost border.
abbrev pub IsGhost : ℕ → ℕ → Type 0
IsGhost sx sy =
    (sx < total_width) × (sy < total_height) × ((sx ≡ 0) ⊎ ((sx ≡ 65) ⊎ ((sy ≡ 0) ⊎ (sy ≡ 65))))

pub index_bounds : (sx sy : ℕ) → sx < total_width → sy < total_height → index sx sy < total_cells
index_bounds sx sy hx hy = omega arith

pub get_cell-set_cell :
    (c : Chunk) (x y : ℕ) (v : CellState) (i j : ℕ)
    → Inside x y
    → Inside i j
    → get_cell (set_cell c x y v) i j ≡ (if i == x && j == y then v else get_cell c i j)
unfolding get_cell set_cell
get_cell-set_cell c x y v i j h k = ground arith

pub get_cell-set_ghost_cell :
    (c : Chunk) (sx sy : ℕ) (v : CellState) (i j : ℕ)
    → IsGhost sx sy
    → Inside i j
    → get_cell (set_ghost_cell c sx sy v) i j ≡ get_cell c i j
unfolding get_cell set_ghost_cell
get_cell-set_ghost_cell c sx sy v i j g k = ground arith

pub get_ghost_cell-set_ghost_cell :
    (c : Chunk) (sx sy : ℕ) (v : CellState) (i j : ℕ)
    → sx < total_width
    → sy < total_height
    → i < total_width
    → j < total_height
    → get_ghost_cell (set_ghost_cell c sx sy v) i j
      ≡ (if i == sx && j == sy then v else get_ghost_cell c i j)
unfolding get_ghost_cell set_ghost_cell
get_ghost_cell-set_ghost_cell c sx sy v i j hx hy hi hj = ground arith

pub swap_buffers-IsValid : (c : Chunk) → IsValid c → IsValid (swap_buffers c)
unfolding swap_buffers
swap_buffers-IsValid c v = omega arith

pub other_buffer_lem : (i : ℕ) → i ≤ 1 → (other_buffer i + i ≡ 1)
other_buffer_lem i h = omega arith
