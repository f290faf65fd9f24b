-- ===== src/GameServer/Grid.antt =====
-- The world as an infinite grid of cells, and what `exchangeBorders` stores of it in each chunk.
use multilife.Prelude.{ℕ, ◌+◌, ◌≤◌, ◌≡◌, refl, ◌∙◌, sym, Option, some, List, [], ◌∷◌, arith}
use mathlib.Core.Option
use native.Mathlib.Nat.{add-zero}
use multilife.Prelude.Int.{ℤ, ◌+ℤ◌}
use multilife.Prelude.Map.{find}
use multilife.Types.{ChunkCoord, CellState, chunk_coord_eq}
use multilife.Chunk
use multilife.Chunk.{Chunk, get_cell, get_ghost_cell, calculate_next, swap_buffers, current, counts}
use multilife.Chunk.Votes.{around}
use multilife.World.{ChunkMap, offset, read_or_dead, ensure_simulation_margin, exchange_borders}
use multilife.World.Coordinates.{floor_mod, floor_mod-lt, floor_div-offset, floor_mod-offset}
use multilife.World.Margin.{Grown, kept, made, ensure_simulation_margin-Grown}
use multilife.World.Exchange.{at_storage, exchange_borders-stored}
pub use multilife.World.Coordinates.{chunk_at, cell_by}
unfoldable pub use multilife.World.Coordinates.{cell_at}
use multilife.GameServer.{for_each_chunk}

-- The eight neighbours on the infinite grid, row by row.
abbrev pub neighbors_at : ChunkMap → ℤ → ℤ → List CellState
neighbors_at m gx gy =
    cell_by m gx gy 0 0
    ∷ cell_by m gx gy 1 0
    ∷ cell_by m gx gy 2 0
    ∷ cell_by m gx gy 0 1
    ∷ cell_by m gx gy 2 1
    ∷ cell_by m gx gy 0 2
    ∷ cell_by m gx gy 1 2
    ∷ cell_by m gx gy 2 2
    ∷ []

pub find-for_each_chunk :
    (task : Chunk → Chunk) (m : ChunkMap) (k : ChunkCoord)
    → find k (for_each_chunk task m) ≡ Option.map task (find k m)
unfolding find for_each_chunk
find-for_each_chunk task [] k = refl
find-for_each_chunk task ((j, c) ∷ m) k = ground (arith, find-for_each_chunk task m k)

-- The margin is dead, so it does not show on the grid.
read-Grown : (o p : Option Chunk) (x y : ℕ) → Grown o p → read_or_dead p x y ≡ read_or_dead o x y
unfolding read_or_dead get_cell Chunk.new
read-Grown o p x y (kept e) = rw e
read-Grown o p x y (made e f) = rw (e, f)

cell_at-margin :
    (m : ChunkMap) (gx gy : ℤ) → cell_at (ensure_simulation_margin m) gx gy ≡ cell_at m gx gy
unfolding cell_at
cell_at-margin m gx gy =
    read-Grown _ _ (floor_mod gx) (floor_mod gy) (ensure_simulation_margin-Grown m (chunk_at gx gy))

-- A storage position next to a cell is the cell next to it on the grid.
pub cell_by-at_storage :
    (m : ChunkMap) (gx gy : ℤ) (dx dy : ℕ)
    → dx ≤ 2
    → dy ≤ 2
    → cell_by m gx gy dx dy ≡ at_storage m (chunk_at gx gy) (floor_mod gx + dx) (floor_mod gy + dy)
unfolding cell_at at_storage
cell_by-at_storage m gx gy dx dy hx hy = rw (
  floor_div-offset gx dx hx,
  floor_div-offset gy dy hy,
  floor_mod-offset gx dx hx,
  floor_mod-offset gy dy hy,
)

all_eight :
    {a b c d e f g h a' b' c' d' e' f' g' h' : CellState}
    → a ≡ a'
    → b ≡ b'
    → c ≡ c'
    → d ≡ d'
    → e ≡ e'
    → f ≡ f'
    → g ≡ g'
    → h ≡ h'
    → a ∷ b ∷ c ∷ d ∷ e ∷ f ∷ g ∷ h ∷ [] ≡ a' ∷ b' ∷ c' ∷ d' ∷ e' ∷ f' ∷ g' ∷ h' ∷ []
all_eight p q r s t u v w = λ i. p i ∷ q i ∷ r i ∷ s i ∷ t i ∷ u i ∷ v i ∷ w i ∷ []

module _ (m : ChunkMap) (gx gy : ℤ) where
  abbrev here : ChunkCoord
  here = chunk_at gx gy

  abbrev x : ℕ
  x = floor_mod gx

  abbrev y : ℕ
  y = floor_mod gy

  pub stored-cell_by :
      (c : Chunk) (dx dy : ℕ)
      → find here (exchange_borders m) ≡ some c
      → dx ≤ 2
      → dy ≤ 2
      → get_ghost_cell c (x + dx) (y + dy) ≡ cell_by m gx gy dx dy
  stored-cell_by c dx dy e hx hy =
      exchange_borders-stored m here c (x + dx) (y + dy) e (omega (arith, floor_mod-lt gx))
        (omega (arith, floor_mod-lt gy))
      ∙ (sym (cell_by-at_storage (ensure_simulation_margin m) gx gy dx dy hx hy)
          ∙ cell_at-margin m (gx +ℤ offset dx) (gy +ℤ offset dy))

  pub around-neighbors_at :
      (c : Chunk)
      → find here (exchange_borders m) ≡ some c
      → around (current c) x y ≡ neighbors_at m gx gy
  unfolding get_ghost_cell
  around-neighbors_at c e =
      let s = λ (dx dy : ℕ) (hx : dx ≤ 2) (hy : dy ≤ 2). stored-cell_by c dx dy e hx hy in
      let left = add-zero x in
      let top = add-zero y in
      all_eight (rw (left, top) at (s 0 0 (omega arith) (omega arith)))
        (rw top at (s 1 0 (omega arith) (omega arith)))
        (rw top at (s 2 0 (omega arith) (omega arith)))
        (rw left at (s 0 1 (omega arith) (omega arith))) (s 2 1 (omega arith) (omega arith))
        (rw left at (s 0 2 (omega arith) (omega arith))) (s 1 2 (omega arith) (omega arith))
        (s 2 2 (omega arith) (omega arith))
