-- ===== src/Chunk/Next.antt =====
-- server/src/Chunk.cpp, `calculateNext` and `swapBuffers`: the next generation of a tile.
use multilife.Prelude.{
  ℕ, suc, ◌+◌, ◌≡◌, refl, ◌↔◌, ◌⊎◌, inl, inr, Bool, true, false, ◌&&◌, ◌||◌, ltb, ◌==◌,
  if◌then◌else◌, Bool-cases, List, [], ◌∷◌, ◌++◌, In, In-append, In-append_left, In-append_right,
  arith, upto_inv,
}
use multilife.Types.{CellState, dead_cell, chunk_width, chunk_height}
use multilife.Chunk.{
  Buffer, Sweep, DirtyCell, dirty_cell, index, next_cell, sweep, neighbor_alive_count,
}
use multilife.Chunk.Cells.{Inside}

-- The cell that the loop body writes, and whether it marks the cell dirty.
abbrev pub changes : CellState → ℕ → Bool
changes cell n = if cell.alive then ltb n 2 || ltb 3 n else n == 3

abbrev pub evolve : CellState → ℕ × ℕ → CellState
evolve cell (n, o) =
    if changes cell n
    then (if cell.alive then dead_cell else record { alive = true; owner = o })
    else cell

In-push :
    (d e : DirtyCell) (m : Bool) (l : List DirtyCell)
    → In d (if m then l ++ (e ∷ []) else l) ↔ (In d l ⊎ (m ≡ true) × (d ≡ e))
In-push d e false l = (inl, elim [ inl h ↦ h | inr h ↦ cc (h.0) ])
In-push d e true l = (
  λ h. elim (In-append d l (e ∷ []) h) [
    | inl old ↦ inl old
    | inr (inl new) ↦ inr (refl, new)
    | inr (inr none) ↦ elim none [ ]
  ],
  elim [
    | inl old ↦ In-append_left d l (e ∷ []) old
    | inr h ↦ In-append_right d l (e ∷ []) (inl h.1)
  ],
)

-- Inside a tile the conversion of a coordinate to 8 bits loses nothing.
dirty_cell_inj :
    (x y i j : ℕ) → Inside x y → Inside i j → dirty_cell i j ≡ dirty_cell x y → (i ≡ x) × (j ≡ y)
dirty_cell_inj x y i j h k e = ground arith

module _ (b : Buffer) where
  abbrev pub result : ℕ → ℕ → CellState
  result x y = evolve (b (index (x + 1) (y + 1))) (neighbor_alive_count b (x + 1) (y + 1))

  abbrev pub marked : ℕ → ℕ → Bool
  marked x y = changes (b (index (x + 1) (y + 1))) (neighbor_alive_count b (x + 1) (y + 1)).0

  next-next_cell :
      (x y : ℕ) (s : Sweep) (k : ℕ)
      → (next_cell b y x s).next k ≡ (if k == index (x + 1) (y + 1) then result x y else s.next k)
  unfolding next_cell
  next-next_cell x y s k = ground arith

  pub dirty_cells-next_cell :
      (x y : ℕ) (s : Sweep)
      → (next_cell b y x s).dirty_cells
        ≡ (if marked x y then s.dirty_cells ++ (dirty_cell x y ∷ []) else s.dirty_cells)
  unfolding next_cell
  dirty_cells-next_cell x y s = ground arith

  -- The cells that the loops have visited when they stand at (x, y).
  abbrev pub before : ℕ → ℕ → ℕ → ℕ → Bool
  before x y i j = ltb j y || (j == y && ltb i x)

  pub record Swept (s0 : Sweep) (x y : ℕ) (s : Sweep) : Type 0 where
    pub cells :
        (i j : ℕ)
        → Inside i j
        → s.next (index (i + 1) (j + 1))
          ≡ (if before x y i j then result i j else s0.next (index (i + 1) (j + 1)))
    pub marks :
        (i j : ℕ)
        → Inside i j
        → In (dirty_cell i j) s.dirty_cells
          ↔ (In (dirty_cell i j) s0.dirty_cells ⊎ (before x y i j ≡ true) × (marked i j ≡ true))

  marks_step :
      (s0 : Sweep) (x y : ℕ) (s : Sweep) (i j : ℕ)
      → Inside x y
      → Inside i j
      → In (dirty_cell i j) s.dirty_cells
        ↔ (In (dirty_cell i j) s0.dirty_cells ⊎ (before x y i j ≡ true) × (marked i j ≡ true))
      → In (dirty_cell i j) (next_cell b y x s).dirty_cells
        ↔ (In (dirty_cell i j) s0.dirty_cells ⊎ (before (suc x) y i j ≡ true) × (marked i j ≡ true))
  marks_step s0 x y s i j h k v = rw (dirty_cells-next_cell x y s) (
    λ m. elim ((In-push (dirty_cell i j) (dirty_cell x y) (marked x y) s.dirty_cells).0 m) [
      | inl old ↦ elim (v.0 old) [ inl o ↦ inl o | inr o ↦ inr (ground (arith, o), o.1) ]
      | inr new ↦ let (p, q) = dirty_cell_inj x y i j h k new.1 in inr (ground arith, ground arith)
    ],
    elim [
      | inl old ↦
          (In-push (dirty_cell i j) (dirty_cell x y) (marked x y) s.dirty_cells).1
            (inl (v.1 (inl old)))
      | inr new ↦ elim (Bool-cases (before x y i j)) [
        | inl o ↦
            (In-push (dirty_cell i j) (dirty_cell x y) (marked x y) s.dirty_cells).1
              (inl (v.1 (inr (o, new.1))))
        | inr o ↦
            let here : (i ≡ x) × (j ≡ y) = ground (arith, new.0) in
            (In-push (dirty_cell i j) (dirty_cell x y) (marked x y) s.dirty_cells).1
              (inr (ground (arith, new.1), rw here.0 (rw here.1)))
      ]
    ],
  )

  Swept-next_cell :
      (s0 : Sweep) (x y : ℕ) (s : Sweep)
      → Inside x y
      → Swept s0 x y s
      → Swept s0 (suc x) y (next_cell b y x s)
  Swept-next_cell s0 x y s h v = record {
    cells = λ i j k. ground (arith, next-next_cell x y s (index (i + 1) (j + 1)), v.cells i j k);
    marks = λ i j k. marks_step s0 x y s i j h k (v.marks i j k);
  }

  Swept-row : (s0 : Sweep) (y : ℕ) (s : Sweep) → Swept s0 chunk_width y s → Swept s0 0 (suc y) s
  Swept-row s0 y s v = record {
    cells = λ i j k. ground (arith, v.cells i j k);
    marks = λ i j k. ground (arith, v.marks i j k);
  }

  pub sweep-Swept : (s0 : Sweep) → Swept s0 0 chunk_height (sweep b s0)
  unfolding sweep
  sweep-Swept s0 =
      upto_inv (λ y s. Swept s0 0 y s) chunk_height _ s0
        (record { cells = λ i j k. ground arith; marks = λ i j k. ground arith })
        (λ y s hy v. Swept-row s0 y _ (
          upto_inv (λ x t. Swept s0 x y t) chunk_width (next_cell b y) s v
            (λ x t hx w. Swept-next_cell s0 x y t (hx, hy) w)))
