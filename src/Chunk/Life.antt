-- ===== src/Chunk/Life.antt =====
-- server/src/Chunk.cpp: a tile's step against the rules of the game, and the list of dirty cells
-- against the cells that changed.
use multilife.Prelude.{
  ℕ, ◌+◌, ◌≡◌, ◌≢◌, ◌↔◌, ◌⊎◌, inl, inr, ◌∙◌, refl, true, false, List, In, arith,
}
use multilife.Types.{CellState, dead_cell, chunk_height}
use multilife.Chunk.{
  Chunk, Buffer, Sweep, dirty_cell, index, current, get_cell, sweep, calculate_next, swap_buffers,
  other_buffer, neighbor_alive_count,
}
use multilife.Chunk.Cells.{Inside, IsValid}
use multilife.Chunk.Votes.{
  around, live_count, IsMajority, neighbor_alive_count-live_count, neighbor_alive_count-IsMajority,
}
use multilife.Chunk.Next.{Swept, sweep-Swept, evolve, changes, result}

-- Conway's rules, with owners: a cell that is born goes to the majority of its neighbours.
pub record Evolves (cell : CellState) (ns : List CellState) (next : CellState) : Type 0 where
  pub survives : cell.alive ≡ true → (live_count ns ≡ 2) ⊎ (live_count ns ≡ 3) → next ≡ cell
  pub dies : cell.alive ≡ true → live_count ns ≢ 2 → live_count ns ≢ 3 → next ≡ dead_cell
  pub born : cell.alive ≡ false → live_count ns ≡ 3 → (next.alive ≡ true) × IsMajority next.owner ns
  pub rests : cell.alive ≡ false → live_count ns ≢ 3 → next ≡ cell

pub IsValid-calculate_next : (c : Chunk) → IsValid c → IsValid (calculate_next c)
unfolding calculate_next
IsValid-calculate_next c v = v

-- The step is written to the buffer that is not current, so nobody sees it before the swap.
pub get_cell-calculate_next :
    (c : Chunk) (x y : ℕ) → IsValid c → get_cell (calculate_next c) x y ≡ get_cell c x y
unfolding calculate_next get_cell
get_cell-calculate_next c x y v = ground arith

sweep_start : Chunk → Sweep
sweep_start c = record {
  next = c.buffers (other_buffer c.current_buffer_index);
  dirty_cells = c.dirty_cells;
}

Swept-sweep_start :
    (c : Chunk)
    → Swept (current c) (sweep_start c) 0 chunk_height (sweep (current c) (sweep_start c))
Swept-sweep_start c = sweep-Swept (current c) (sweep_start c)

get_cell-swap_buffers :
    (c : Chunk) (x y : ℕ)
    → IsValid c
    → get_cell (swap_buffers (calculate_next c)) x y
      ≡ (sweep (current c) (sweep_start c)).next (index (x + 1) (y + 1))
unfolding get_cell swap_buffers calculate_next sweep_start
get_cell-swap_buffers c x y v = ground arith

next_generation :
    (c : Chunk) (x y : ℕ)
    → IsValid c
    → Inside x y
    → get_cell (swap_buffers (calculate_next c)) x y ≡ result (current c) x y
next_generation c x y v h =
    get_cell-swap_buffers c x y v ∙ ((Swept-sweep_start c).cells x y h ∙ ground arith)

evolve_born :
    (cell : CellState) (r : ℕ × ℕ)
    → cell.alive ≡ false
    → r.0 ≡ 3
    → evolve cell r ≡ record { alive = true; owner = r.1 }
evolve_born cell r a e = ground arith

changes_alive :
    (cell : CellState) (r : ℕ × ℕ)
    → (changes cell r.0 ≡ true) ↔ ((evolve cell r).alive ≢ cell.alive)
changes_alive cell r = ground arith

evolve-Evolves :
    (b : Buffer) (x y : ℕ) → Evolves (b (index (x + 1) (y + 1))) (around b x y) (result b x y)
evolve-Evolves b x y =
    let n = neighbor_alive_count-live_count b x y in
    record {
      survives = λ a k. ground (arith, n);
      dies = λ a k l. ground (arith, n);
      born = λ a k.
          rw
            (evolve_born (b (index (x + 1) (y + 1))) (neighbor_alive_count b (x + 1) (y + 1)) a
              (n ∙ k))
            (refl, neighbor_alive_count-IsMajority b x y (ground arith));
      rests = λ a k. ground (arith, n);
    }

-- After `calculateNext` and `swapBuffers` on a valid chunk every inner cell follows the rules, as they
-- apply to the cell and its eight neighbours in the buffer before, ghost cells included.
pub generation-Evolves :
    (c : Chunk) (x y : ℕ)
    → IsValid c
    → Inside x y
    → Evolves
        (get_cell c x y)
        (around (current c) x y)
        (get_cell (swap_buffers (calculate_next c)) x y)
unfolding get_cell
generation-Evolves c x y v h = rw (next_generation c x y v h) (evolve-Evolves (current c) x y)

-- On a valid chunk, and among inner cells, `calculateNext` adds to the dirty list exactly the cells that
-- are born or die in this step.
pub dirty_cells-calculate_next :
    (c : Chunk) (x y : ℕ)
    → IsValid c
    → Inside x y
    → In (dirty_cell x y) (calculate_next c).dirty_cells ↔ (
        In (dirty_cell x y) c.dirty_cells
        ⊎ ((get_cell (swap_buffers (calculate_next c)) x y).alive ≢ (get_cell c x y).alive))
unfolding calculate_next sweep_start get_cell
dirty_cells-calculate_next c x y v h =
    let m = (Swept-sweep_start c).marks x y h in
    let f = changes_alive (get_cell c x y) (neighbor_alive_count (current c) (x + 1) (y + 1)) in
    rw (next_generation c x y v h) (
      λ k. elim (m.0 k) [ inl old ↦ inl old | inr new ↦ inr (f.0 new.1) ],
      elim [ inl old ↦ m.1 (inl old) | inr new ↦ m.1 (inr (ground arith, f.1 new)) ],
    )
