-- ===== src/World/Coordinates.antt =====
-- server/src/World.cpp, `applyCommands`: from a global coordinate to a chunk and a place in it.
use multilife.Prelude.{ℕ, ◌+◌, ◌-◌, ◌/◌, ◌%◌, ◌≤◌, ◌<◌, ◌≡◌, refl, ◌==◌, if◌then◌else◌, arith}
use multilife.Prelude.Int.{ℤ, pos, negsuc, tdiv, tmod, ◌+ℤ◌, ◌-ℤ◌, scale, IsInt32, to_int32-fits}
use multilife.Types.{ChunkCoord, chunk_coord_eq, CellState}
use multilife.World.{
  ChunkMap, chunk_quotient, chunk_coordinate, local_coordinate, offset, read_or_dead,
}
use multilife.Prelude.Map.{find}

-- Division by 64 towards minus infinity, and its remainder.
abbrev pub floor_div : ℤ → ℤ
floor_div (pos n) = pos (n / 64)
floor_div (negsuc n) = negsuc (n / 64)

abbrev pub floor_mod : ℤ → ℕ
floor_mod (pos n) = n % 64
floor_mod (negsuc n) = 63 - n % 64

-- The chunk of a cell of the infinite grid.
abbrev pub chunk_at : ℤ → ℤ → ChunkCoord
chunk_at gx gy = record { x = floor_div gx; y = floor_div gy }

-- The cell of the infinite grid at (gx, gy); where there is no chunk, it is dead.
unfoldable pub cell_at : ChunkMap → ℤ → ℤ → CellState
cell_at m gx gy = read_or_dead (find (chunk_at gx gy) m) (floor_mod gx) (floor_mod gy)

abbrev pub cell_by : ChunkMap → ℤ → ℤ → ℕ → ℕ → CellState
cell_by m gx gy dx dy = cell_at m (gx +ℤ offset dx) (gy +ℤ offset dy)

pub chunk_quotient-floor_div : (g : ℤ) → chunk_quotient g 64 ≡ floor_div g
unfolding chunk_quotient tdiv ◌+ℤ◌ ◌-ℤ◌
chunk_quotient-floor_div (pos n) = refl
chunk_quotient-floor_div (negsuc n) = ground arith

pub local_coordinate-floor_mod : (g : ℤ) → local_coordinate g 64 ≡ floor_mod g
unfolding local_coordinate tmod ◌+ℤ◌
local_coordinate-floor_mod (pos n) = ground arith
local_coordinate-floor_mod (negsuc n) = ground arith

pub floor_mod-lt : (g : ℤ) → floor_mod g < 64
floor_mod-lt (pos n) = omega arith
floor_mod-lt (negsuc n) = omega arith

pub floor_div_lem : (g : ℤ) → scale 64 (floor_div g) +ℤ pos (floor_mod g) ≡ g
unfolding scale ◌+ℤ◌
floor_div_lem (pos n) = ground arith
floor_div_lem (negsuc n) = ground arith

-- Every global coordinate whose chunk fits an `int` is 64 times its chunk plus its local coordinate,
-- and the local coordinate is below 64.
pub split_global :
    (g : ℤ)
    → IsInt32 (floor_div g)
    → (scale 64 (chunk_coordinate g 64) +ℤ pos (local_coordinate g 64) ≡ g)
      × (local_coordinate g 64 < 64)
unfolding chunk_coordinate
split_global g h =
    rw (chunk_quotient-floor_div g, local_coordinate-floor_mod g, to_int32-fits (floor_div g) h)
      (floor_div_lem g, floor_mod-lt g)

-- The neighbour in which a storage coordinate of 0 to 65 lies, and the place in it.
abbrev pub side : ℕ → ℕ
side s = if s == 0 then 0 else (if s == 65 then 2 else 1)

abbrev pub inner : ℕ → ℕ
inner s = if s == 0 then 63 else (if s == 65 then 0 else s - 1)

pub floor_div-offset :
    (g : ℤ) (d : ℕ)
    → d ≤ 2
    → floor_div (g +ℤ offset d) ≡ floor_div g +ℤ offset (side (floor_mod g + d))
unfolding ◌+ℤ◌
floor_div-offset (pos n) d h = ground arith
floor_div-offset (negsuc n) d h = ground arith

pub floor_mod-offset : (g : ℤ) (d : ℕ) → d ≤ 2 → floor_mod (g +ℤ offset d) ≡ inner (floor_mod g + d)
unfolding ◌+ℤ◌
floor_mod-offset (pos n) d h = ground arith
floor_mod-offset (negsuc n) d h = ground arith
