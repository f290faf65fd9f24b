-- ===== src/GameServer/Quiet.antt =====
-- Where there is no chunk after `exchangeBorders`, there is no live cell around.
use multilife.Prelude.{
  ℕ, ◌+◌, ◌-◌, ◌≤◌, ◌≡◌, refl, ◌∙◌, sym, inl, inr, true, false, ◌&&◌, ◌==◌, Bool-cases, Option,
  none, some, List, [], ◌∷◌, All, arith,
}
use multilife.Prelude.Int.{ℤ, ◌+ℤ◌}
use multilife.Prelude.Map.{find}
use multilife.Types.{ChunkCoord, CellState, dead_cell, chunk_coord_eq}
use multilife.Chunk.{Chunk, get_cell}
use multilife.Chunk.Cells.{Inside}
use multilife.Chunk.Votes.{live_count}
use multilife.Chunk.Life.{Evolves}
use multilife.World.{
  ChunkMap, neighbor, offset, read_or_dead, ensure_simulation_margin, exchange_borders,
}
use multilife.World.Coordinates.{floor_mod, floor_mod-lt, side}
use multilife.World.Margin.{Grown, kept, made, ensure_simulation_margin-Grown, neighbor-Present}
use multilife.World.Exchange.{at_storage, SameChunk, neither, both, exchange_borders-SameCells}
use multilife.GameServer.Grid.{chunk_at, cell_at, cell_by, neighbors_at, cell_by-at_storage}

offset_back : (z : ℤ) (a : ℕ) → a ≤ 2 → z +ℤ offset a +ℤ offset (2 - a) ≡ z
unfolding ◌+ℤ◌
offset_back z a h = ground arith

neighbor_back :
    (k : ChunkCoord) (a b : ℕ) → a ≤ 2 → b ≤ 2 → neighbor (neighbor k a b) (2 - a) (2 - b) ≡ k
neighbor_back k a b ha hb = λ i. record { x = offset_back k.x a ha i; y = offset_back k.y b hb i }

neighbor_centre : (k : ChunkCoord) → neighbor k 1 1 ≡ k
unfolding ◌+ℤ◌
neighbor_centre k = ground arith

pub SameChunk-none : (o p : Option Chunk) → SameChunk o p → p ≡ none → o ≡ none
SameChunk-none o p neither e = refl
SameChunk-none o p (both s) e = cc (e)

pub Grown-none : (o p : Option Chunk) → Grown o p → p ≡ none → o ≡ none
Grown-none o p (kept e) f = sym e ∙ f
Grown-none o p (made e f) g = e

-- A cell that is alive stands in a chunk.
read-alive :
    (o : Option Chunk) (x y : ℕ)
    → (read_or_dead o x y).alive ≡ true
    → (c : Chunk) × (o ≡ some c) × ((get_cell c x y).alive ≡ true)
unfolding read_or_dead
read-alive none x y e = cc (e)
read-alive (some c) x y e = (c, refl, e)

side-le : (s : ℕ) → side s ≤ 2
side-le s = ground arith

back_other :
    (a b : ℕ) → a ≤ 2 → b ≤ 2 → (a == 1 && b == 1) ≡ false → (2 - a == 1 && 2 - b == 1) ≡ false
back_other a b ha hb e = ground arith

two_sides : (a b : ℕ) → (a == 1 && b == 1) ≡ true → (a ≡ 1) × (b ≡ 1)
two_sides a b e = ground arith

-- Where the margin has no chunk, no neighbour is alive.
module _ (m : ChunkMap) (gx gy : ℤ) (free : find (chunk_at gx gy) (exchange_borders m) ≡ none) where
  free_margin : find (chunk_at gx gy) (ensure_simulation_margin m) ≡ none
  free_margin = SameChunk-none _ _ (exchange_borders-SameCells m (chunk_at gx gy)) free

  free_before : find (chunk_at gx gy) m ≡ none
  free_before = Grown-none _ _ (ensure_simulation_margin-Grown m (chunk_at gx gy)) free_margin

  pub free_cell : cell_at m gx gy ≡ dead_cell
  unfolding cell_at read_or_dead
  free_cell = rw free_before

  no_live_chunk :
      (a b u v : ℕ) (c : Chunk)
      → a ≤ 2
      → b ≤ 2
      → Inside u v
      → find (neighbor (chunk_at gx gy) a b) m ≡ some c
      → (get_cell c u v).alive ≡ true
      → ⊥
  no_live_chunk a b u v c ha hb h e live = elim (Bool-cases (a == 1 && b == 1)) [
    | inl own ↦
        let (p, q) = two_sides a b own in
        let e' : find (chunk_at gx gy) m ≡ some c =
          rw (p, q, neighbor_centre (chunk_at gx gy)) at e in
        cc (e', free_before)
    | inr other ↦
        neighbor-Present m (neighbor (chunk_at gx gy) a b) c u v (2 - a) (2 - b) e h live
          (omega arith) (omega arith) (back_other a b ha hb other)
          (rw (neighbor_back (chunk_at gx gy) a b ha hb) free_margin)
  ]

  quiet : (dx dy : ℕ) → dx ≤ 2 → dy ≤ 2 → (cell_by m gx gy dx dy).alive ≡ false
  unfolding at_storage
  quiet dx dy hx hy = elim (Bool-cases (cell_by m gx gy dx dy).alive) [
    | inl live ↦
        let (c, e, a) = read-alive _ _ _ (rw (cell_by-at_storage m gx gy dx dy hx hy) at live) in
        absurd (
          no_live_chunk (side (floor_mod gx + dx)) (side (floor_mod gy + dy)) _ _ c
            (side-le (floor_mod gx + dx)) (side-le (floor_mod gy + dy))
            (ground (arith, floor_mod-lt gx, floor_mod-lt gy)) e a)
    | inr q ↦ q
  ]

pub live_count-quiet : (cs : List CellState) → All (λ c. c.alive ≡ false) cs → live_count cs ≡ 0
unfolding live_count
live_count-quiet [] h = refl
live_count-quiet (c ∷ cs) h = ground (arith, live_count-quiet cs h.1)

pub Evolves-quiet : (ns : List CellState) → live_count ns ≡ 0 → Evolves dead_cell ns dead_cell
Evolves-quiet ns e = record {
  survives = λ a h. refl;
  dies = λ a h k. refl;
  born = λ a h. absurd (omega arith);
  rests = λ a h. refl;
}

pub neighbors-quiet :
    (m : ChunkMap) (gx gy : ℤ)
    → find (chunk_at gx gy) (exchange_borders m) ≡ none
    → live_count (neighbors_at m gx gy) ≡ 0
neighbors-quiet m gx gy free =
    let q = λ (dx dy : ℕ) (hx : dx ≤ 2) (hy : dy ≤ 2). quiet m gx gy free dx dy hx hy in
    live_count-quiet (neighbors_at m gx gy) (
      q 0 0 (omega arith) (omega arith),
      (
        q 1 0 (omega arith) (omega arith),
        (
          q 2 0 (omega arith) (omega arith),
          (
            q 0 1 (omega arith) (omega arith),
            (
              q 2 1 (omega arith) (omega arith),
              (
                q 0 2 (omega arith) (omega arith),
                (q 1 2 (omega arith) (omega arith), (q 2 2 (omega arith) (omega arith), tt)),
              ),
            ),
          ),
        ),
      ),
    )
