-- ===== src/World/Borders.antt =====
-- server/src/World.cpp, `exchangeBorders`: what the loops write into one chunk.
use multilife.Prelude.{
  ℕ, suc, ◌+◌, ◌<◌, ◌≡◌, refl, Bool, ◌&&◌, ◌||◌, leb, ◌==◌, if◌then◌else◌, Option, arith, upto,
  upto_inv,
}
use multilife.Types.{CellState}
use multilife.Chunk.{Chunk, get_cell, get_ghost_cell, set_ghost_cell, total_width, total_height}
use multilife.Chunk.Cells.{get_ghost_cell-set_ghost_cell, Inside}
use multilife.World.{read_or_dead, set_borders}
use multilife.World.Coordinates.{side, inner}

-- What belongs at a storage position on the border.
unfoldable pub source : (ℕ → ℕ → Option Chunk) → ℕ → ℕ → CellState
source at sx sy = read_or_dead (at (side sx) (side sy)) (inner sx) (inner sy)

abbrev pub on_border : ℕ → Bool
on_border s = s == 0 || s == 65

module _ (at : ℕ → ℕ → Option Chunk) (c0 : Chunk) where
  -- The chunk `c` holds what belongs at the drawn positions, and is `c0` elsewhere.
  Drawn : (ℕ → ℕ → Bool) → Chunk → Type 0
  Drawn d c =
      (i j : ℕ)
      → i < total_width
      → j < total_height
      → get_ghost_cell c i j ≡ (if d i j then source at i j else get_ghost_cell c0 i j)

  draw :
      (d d' : ℕ → ℕ → Bool) (c : Chunk) (sx sy : ℕ) (v : CellState)
      → sx < total_width
      → sy < total_height
      → v ≡ source at sx sy
      → ((i j : ℕ) → i < total_width → j < total_height → d' i j ≡ (d i j || i == sx && j == sy))
      → Drawn d c
      → Drawn d' (set_ghost_cell c sx sy v)
  unfolding Drawn
  draw d d' c sx sy v hx hy e more p i j hi hj =
      ground (
        arith,
        get_ghost_cell-set_ghost_cell c sx sy v i j hx hy hi hj,
        more i j hi hj,
        p i j hi hj,
      )

  abbrev rows : ℕ → ℕ → ℕ → Bool
  rows x i j = on_border j && (leb 1 i && leb i x)

  abbrev columns : ℕ → ℕ → ℕ → Bool
  columns y i j = rows 64 i j || on_border i && (leb 1 j && leb j y)

  source_row :
      (x : ℕ)
      → x < 64
      → (read_or_dead (at 1 0) x 63 ≡ source at (x + 1) 0)
        × (read_or_dead (at 1 2) x 0 ≡ source at (x + 1) 65)
  unfolding source
  source_row x h = ground arith

  source_column :
      (y : ℕ)
      → y < 64
      → (read_or_dead (at 0 1) 63 y ≡ source at 0 (y + 1))
        × (read_or_dead (at 2 1) 0 y ≡ source at 65 (y + 1))
  unfolding source
  source_column y h = ground arith

  Drawn-rows :
      (c : Chunk)
      → Drawn (rows 0) c
      → Drawn (rows 64) (
          upto 64
            (λ x c.
              set_ghost_cell
                (set_ghost_cell c (x + 1) 0 (read_or_dead (at 1 0) x 63))
                (x + 1)
                65
                (read_or_dead (at 1 2) x 0))
            c)
  Drawn-rows c start =
      upto_inv (λ x c. Drawn (rows x) c) 64 _ c start
        (λ x t hx p.
          let (n, s) = source_row x hx in
          draw (λ i j. rows x i j || i == x + 1 && j == 0) (rows (suc x)) _ (x + 1) 65 _
            (omega arith) (omega arith) s (λ i j hi hj. ground arith)
            (draw (rows x) _ t (x + 1) 0 _ (omega arith) (omega arith) n (λ i j hi hj. refl) p))

  Drawn-columns :
      (c : Chunk)
      → Drawn (columns 0) c
      → Drawn (columns 64) (
          upto 64
            (λ y c.
              set_ghost_cell
                (set_ghost_cell c 0 (y + 1) (read_or_dead (at 0 1) 63 y))
                65
                (y + 1)
                (read_or_dead (at 2 1) 0 y))
            c)
  Drawn-columns c start =
      upto_inv (λ y c. Drawn (columns y) c) 64 _ c start
        (λ y t hy p.
          let (w, e) = source_column y hy in
          draw (λ i j. columns y i j || i == 0 && j == y + 1) (columns (suc y)) _ 65 (y + 1) _
            (omega arith) (omega arith) e (λ i j hi hj. ground arith)
            (draw (columns y) _ t 0 (y + 1) _ (omega arith) (omega arith) w (λ i j hi hj. refl) p))

  -- The whole border, corners included.
  abbrev pub border : ℕ → ℕ → Bool
  border i j = on_border i || on_border j

  Drawn-start : Drawn (rows 0) c0
  unfolding Drawn
  Drawn-start i j hi hj = ground arith

  Drawn-turn : (c : Chunk) → Drawn (rows 64) c → Drawn (columns 0) c
  unfolding Drawn
  Drawn-turn c p i j hi hj = ground (arith, p i j hi hj)

  corners :
      (read_or_dead (at 0 0) 63 63 ≡ source at 0 0)
      × (read_or_dead (at 2 0) 0 63 ≡ source at 65 0)
      × (read_or_dead (at 0 2) 63 0 ≡ source at 0 65)
      × (read_or_dead (at 2 2) 0 0 ≡ source at 65 65)
  unfolding source
  corners = (refl, refl, refl, refl)

  abbrev add_corner : ℕ → ℕ → (ℕ → ℕ → Bool) → ℕ → ℕ → Bool
  add_corner x y d i j = d i j || i == x && j == y

  Drawn-corner :
      (d : ℕ → ℕ → Bool) (c : Chunk) (sx sy : ℕ) (v : CellState)
      → sx < total_width
      → sy < total_height
      → v ≡ source at sx sy
      → Drawn d c
      → Drawn (add_corner sx sy d) (set_ghost_cell c sx sy v)
  Drawn-corner d c sx sy v hx hy e p =
      draw d (add_corner sx sy d) c sx sy v hx hy e (λ i j hi hj. refl) p

  set_borders-Drawn : Drawn border (set_borders at c0)
  unfolding set_borders
  set_borders-Drawn =
      let (a, b, c, d) = corners in
      draw _ border _ 65 65 _ (omega arith) (omega arith) d (λ i j hi hj. ground arith)
        (Drawn-corner _ _ 0 65 _ (omega arith) (omega arith) c (
          Drawn-corner _ _ 65 0 _ (omega arith) (omega arith) b (
            Drawn-corner (columns 64) _ 0 0 _ (omega arith) (omega arith) a
              (Drawn-columns _ (Drawn-turn _ (Drawn-rows c0 Drawn-start))))))

-- A border position holds what belongs there; every other cell is as before.
pub get_ghost_cell-set_borders :
    (at : ℕ → ℕ → Option Chunk) (c : Chunk) (i j : ℕ)
    → i < total_width
    → j < total_height
    → get_ghost_cell (set_borders at c) i j
      ≡ (if border at c i j then source at i j else get_ghost_cell c i j)
unfolding Drawn
get_ghost_cell-set_borders at c i j hi hj = set_borders-Drawn at c i j hi hj

-- Two chunks with the same inner cells, the same current buffer and the same dirty list.
pub record SameInside (c d : Chunk) : Type 0 where
  pub buffer : d.current_buffer_index ≡ c.current_buffer_index
  pub dirty : d.dirty_cells ≡ c.dirty_cells
  pub cells : (x y : ℕ) → Inside x y → get_cell d x y ≡ get_cell c x y

SameFrame : Chunk → Chunk → Type 0
SameFrame c d = (d.current_buffer_index ≡ c.current_buffer_index) × (d.dirty_cells ≡ c.dirty_cells)

SameFrame-set_borders : (at : ℕ → ℕ → Option Chunk) (c : Chunk) → SameFrame c (set_borders at c)
unfolding set_borders set_ghost_cell SameFrame
SameFrame-set_borders at c =
    upto_inv (λ y d. SameFrame c d) 64 _ _
      (upto_inv (λ x d. SameFrame c d) 64 _ c (refl, refl) (λ x t h p. p)) (λ y t h p. p)

pub set_borders-SameInside :
    (at : ℕ → ℕ → Option Chunk) (c : Chunk) → SameInside c (set_borders at c)
unfolding SameFrame get_cell get_ghost_cell
set_borders-SameInside at c = record {
  buffer = (SameFrame-set_borders at c).0;
  dirty = (SameFrame-set_borders at c).1;
  cells = λ x y h.
      ground (arith, get_ghost_cell-set_borders at c (x + 1) (y + 1) (omega arith) (omega arith));
}
