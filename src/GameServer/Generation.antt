-- ===== src/GameServer/Generation.antt =====
-- server/src/GameServer.cpp, `onTick`: the simulation step against the rules on the infinite grid,
-- as if there were no chunks.
use multilife.Prelude.{ℕ, ◌≡◌, refl, ◌∙◌, sym, inl, inr, Option, none, some, Option-cases, arith}
use multilife.Prelude.Int.{ℤ, ◌+ℤ◌}
use multilife.Prelude.Map.{find}
use multilife.Types.{ChunkCoord, dead_cell, chunk_coord_eq}
use multilife.Chunk
use multilife.Chunk.{Chunk, get_cell, get_ghost_cell, calculate_next, swap_buffers, current, counts}
use multilife.Chunk.Cells.{IsValid, swap_buffers-IsValid}
use multilife.Chunk.Life.{Evolves, generation-Evolves, IsValid-calculate_next}
use multilife.World.{ChunkMap, offset, read_or_dead, exchange_borders, ensure_simulation_margin}
use multilife.World.Range.{AllWithin, ensure_simulation_margin-AllWithin}
use multilife.World.Coordinates.{floor_mod, floor_mod-lt}
use multilife.World.Margin.{Grown, kept, made, ensure_simulation_margin-Grown}
use multilife.World.Exchange.{read-some, SameChunk, neither, both, exchange_borders-SameCells}
use multilife.GameServer.{simulate}
use multilife.GameServer.Grid.{
  chunk_at, cell_at, neighbors_at, find-for_each_chunk, stored-cell_by, around-neighbors_at,
}
use multilife.GameServer.Quiet.{free_cell, Evolves-quiet, neighbors-quiet}

pub simulate-none :
    (m : ChunkMap) (k : ChunkCoord)
    → find k (exchange_borders m) ≡ none
    → find k (simulate m) ≡ none
unfolding simulate
simulate-none m k e =
    find-for_each_chunk swap_buffers _ k
    ∙ rw (find-for_each_chunk calculate_next (exchange_borders m) k, e)

pub simulate-some :
    (m : ChunkMap) (k : ChunkCoord) (c : Chunk)
    → find k (exchange_borders m) ≡ some c
    → find k (simulate m) ≡ some (swap_buffers (calculate_next c))
unfolding simulate
simulate-some m k c e =
    find-for_each_chunk swap_buffers _ k
    ∙ rw (find-for_each_chunk calculate_next (exchange_borders m) k, e)

-- Every chunk of the world is valid.
abbrev pub AllValid : ChunkMap → Type 0
AllValid m = (k : ChunkCoord) (c : Chunk) → find k m ≡ some c → IsValid c

SameChunk-IsValid :
    (o p : Option Chunk) (d : Chunk)
    → SameChunk o p
    → ((c : Chunk) → o ≡ some c → IsValid c)
    → p ≡ some d
    → IsValid d
SameChunk-IsValid o p d neither h e = cc (e)
SameChunk-IsValid o p d (both {c = a} {d = b} s) h e =
    let q : b ≡ d = cc (e) in let v = h a refl in rw (← q) (rw s.buffer v)

Grown-IsValid :
    (o p : Option Chunk) (d : Chunk)
    → Grown o p
    → ((c : Chunk) → o ≡ some c → IsValid c)
    → p ≡ some d
    → IsValid d
unfolding Chunk.new
Grown-IsValid o p d (kept f) h e = h d (sym f ∙ e)
Grown-IsValid o p d (made f g) h e = let q : Chunk.new ≡ d = cc (e, g) in rw (← q) (omega arith)

pub exchange_borders-AllValid : (m : ChunkMap) → AllValid m → AllValid (exchange_borders m)
exchange_borders-AllValid m v k d e =
    SameChunk-IsValid _ _ d (exchange_borders-SameCells m k)
      (λ c f. Grown-IsValid _ _ c (ensure_simulation_margin-Grown m k) (v k) f) e

read-none : (o : Option Chunk) (x y : ℕ) → o ≡ none → read_or_dead o x y ≡ dead_cell
unfolding read_or_dead
read-none o x y e = rw e

add_none : (z : ℤ) → z +ℤ offset 1 ≡ z
unfolding ◌+ℤ◌
add_none z = ground arith

pub stored_self :
    (m : ChunkMap) (gx gy : ℤ) (c : Chunk)
    → find (chunk_at gx gy) (exchange_borders m) ≡ some c
    → get_cell c (floor_mod gx) (floor_mod gy) ≡ cell_at m gx gy
unfolding get_cell get_ghost_cell
stored_self m gx gy c e =
    stored-cell_by m gx gy c 1 1 e (omega arith) (omega arith) ∙ rw (add_none gx, add_none gy)

pub cell_at-simulate-none :
    (m : ChunkMap) (gx gy : ℤ)
    → find (chunk_at gx gy) (exchange_borders m) ≡ none
    → cell_at (simulate m) gx gy ≡ dead_cell
unfolding cell_at
cell_at-simulate-none m gx gy e =
    read-none _ (floor_mod gx) (floor_mod gy) (simulate-none m (chunk_at gx gy) e)

pub cell_at-simulate-some :
    (m : ChunkMap) (gx gy : ℤ) (c : Chunk)
    → find (chunk_at gx gy) (exchange_borders m) ≡ some c
    → cell_at (simulate m) gx gy
      ≡ get_cell (swap_buffers (calculate_next c)) (floor_mod gx) (floor_mod gy)
unfolding cell_at
cell_at-simulate-some m gx gy c e =
    read-some _ _ (floor_mod gx) (floor_mod gy) (simulate-some m (chunk_at gx gy) c e)

-- The step by the sums of the model, which have no bounds.
pub Evolves-simulate :
    (m : ChunkMap) (gx gy : ℤ)
    → AllValid m
    → Evolves (cell_at m gx gy) (neighbors_at m gx gy) (cell_at (simulate m) gx gy)
Evolves-simulate m gx gy v = elim (Option-cases (find (chunk_at gx gy) (exchange_borders m))) [
  | inl free ↦
      rw (free_cell m gx gy free, cell_at-simulate-none m gx gy free)
        (Evolves-quiet (neighbors_at m gx gy) (neighbors-quiet m gx gy free))
  | inr (c, e) ↦
      rw
        (
          sym (stored_self m gx gy c e),
          sym (around-neighbors_at m gx gy c e),
          cell_at-simulate-some m gx gy c e,
        )
        (generation-Evolves c (floor_mod gx) (floor_mod gy)
          (exchange_borders-AllValid m v (chunk_at gx gy) c e) (floor_mod-lt gx, floor_mod-lt gy))
]

-- The step keeps every chunk valid.
pub simulate-AllValid : (m : ChunkMap) → AllValid m → AllValid (simulate m)
simulate-AllValid m v k d e = elim (Option-cases (find k (exchange_borders m))) [
  | inl free ↦ cc (e, simulate-none m k free)
  | inr (c, here) ↦
      let q : swap_buffers (calculate_next c) ≡ d = cc (e, simulate-some m k c here) in
      rw (← q) (
        swap_buffers-IsValid (calculate_next c)
          (IsValid-calculate_next c (exchange_borders-AllValid m v k c here)))
]

-- If every chunk is valid and two sums from the ends of the range of an `int`, one simulation step of the
-- server is one step of the game on the infinite grid: every cell, in a chunk or not, follows the rules
-- from its eight neighbours, over the borders of chunks as well. Every chunk whose neighbours are looked
-- up is one sum from the ends, so no sum of the step leaves the range.
pub simulate-Evolves :
    (m : ChunkMap) (gx gy : ℤ)
    → AllWithin 2 m
    → AllValid m
    → Evolves (cell_at m gx gy) (neighbors_at m gx gy) (cell_at (simulate m) gx gy)
      × AllWithin 1 (ensure_simulation_margin m)
simulate-Evolves m gx gy room v =
    (Evolves-simulate m gx gy v, ensure_simulation_margin-AllWithin 1 m room)
