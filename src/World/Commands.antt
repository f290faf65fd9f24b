-- ===== src/World/Commands.antt =====
-- server/src/World.cpp, `applyCommands`: what one command does to the world.
use multilife.Prelude.{
  ℕ, ◌≡◌, refl, ◌∙◌, sym, ap, inl, inr, Bool, true, false, ◌&&◌, ◌==◌, if◌then◌else◌, Bool-cases,
  Option-cases, arith,
}
use multilife.Prelude.Int.{ℤ, pos, negsuc, ◌==ℤ◌, ==ℤ_iff, IsInt32, to_int32-fits}
use multilife.Prelude.Map.{find, insert, find-insert}
use multilife.Types.{ChunkCoord, CellState, chunk_coord_eq, coord_eq, coord_eq_iff, PlayerCommand}
use multilife.Chunk
use multilife.Chunk.{Chunk, get_cell, set_cell}
use multilife.Chunk.Cells.{get_cell-set_cell}
use multilife.Resources.{ResourceManager}
use multilife.World.{
  ChunkMap, get_or_create_chunk, apply_command, command_coord, edit_cell, read_or_dead,
  chunk_coordinate,
}
use multilife.World.Coordinates.{
  floor_div, floor_mod, floor_mod-lt, chunk_at, cell_at, chunk_quotient-floor_div,
  local_coordinate-floor_mod,
}

-- A chunk and a place in it determine the global coordinate.
floor_inj : (a b : ℤ) → floor_div a ≡ floor_div b → floor_mod a ≡ floor_mod b → a ≡ b
floor_inj (pos a) (pos b) e f = ground arith
floor_inj (pos a) (negsuc b) e f = ground arith
floor_inj (negsuc a) (pos b) e f = ground arith
floor_inj (negsuc a) (negsuc b) e f = ground arith

-- The command's chunk fits the `int`s of a chunk's coordinates.
abbrev pub InRange : PlayerCommand → Type 0
InRange cmd = IsInt32 (floor_div cmd.x) × IsInt32 (floor_div cmd.y)

pub command_coord-chunk_at :
    (cmd : PlayerCommand) → InRange cmd → command_coord cmd ≡ chunk_at cmd.x cmd.y
unfolding chunk_coordinate
command_coord-chunk_at cmd (hx, hy) = rw (
  chunk_quotient-floor_div cmd.x,
  chunk_quotient-floor_div cmd.y,
  to_int32-fits (floor_div cmd.x) hx,
  to_int32-fits (floor_div cmd.y) hy,
)

get_cell-get_or_create_chunk :
    (k : ChunkCoord) (m : ChunkMap) (x y : ℕ)
    → get_cell (get_or_create_chunk k m).1 x y ≡ read_or_dead (find k m) x y
unfolding get_or_create_chunk read_or_dead get_cell Chunk.new
get_cell-get_or_create_chunk k m x y = elim (Option-cases (find k m)) [
  | inl free ↦ rw (free, get_or_create_chunk)
  | inr (c, used) ↦ rw (used, get_or_create_chunk)
]

find-get_or_create_chunk :
    (k j : ChunkCoord) (m : ChunkMap)
    → coord_eq k j ≡ false
    → find j (get_or_create_chunk k m).0 ≡ find j m
unfolding get_or_create_chunk
find-get_or_create_chunk k j m e = elim (Option-cases (find k m)) [
  | inl free ↦ rw (free, get_or_create_chunk) (rw find-insert (rw e))
  | inr (c, used) ↦ rw (used, get_or_create_chunk)
]

both_eq : (a b c d : ℤ) → (a ==ℤ b && c ==ℤ d) ≡ true → (a ≡ b) × (c ≡ d)
both_eq a b c d e = ground (arith, ==ℤ_iff a b, ==ℤ_iff c d)

both_eq_true : (a b c d : ℤ) → a ≡ b → c ≡ d → (a ==ℤ b && c ==ℤ d) ≡ true
both_eq_true a b c d p q = ground (arith, ==ℤ_iff a b, ==ℤ_iff c d)

and_left : (a b : Bool) → (a && b) ≡ true → a ≡ true
and_left a b e = ground arith

and_right : (a b : Bool) → (a && b) ≡ true → b ≡ true
and_right a b e = ground arith

not_true : (b : Bool) → (b ≡ true → ⊥) → b ≡ false
not_true true h = absurd (h refl)
not_true false h = refl

-- The same cell of the grid: the same chunk, and the same place in it.
same_place :
    (a b c d : ℤ)
    → (coord_eq (chunk_at a b) (chunk_at c d)
        && (floor_mod c == floor_mod a && floor_mod d == floor_mod b))
      ≡ (c ==ℤ a && d ==ℤ b)
same_place a b c d = elim (Bool-cases (c ==ℤ a && d ==ℤ b)) [
  | inl same ↦
      let (p, q) = both_eq c a d b same in
      rw (p, q) (ground (arith, coord_eq_iff (chunk_at a b) (chunk_at a b)))
  | inr other ↦ rw other (
      not_true _ λ e.
        let k = (coord_eq_iff (chunk_at a b) (chunk_at c d)).0 (
          and_left (coord_eq (chunk_at a b) (chunk_at c d))
            (floor_mod c == floor_mod a && floor_mod d == floor_mod b) e) in
        let r =
          and_right (coord_eq (chunk_at a b) (chunk_at c d))
            (floor_mod c == floor_mod a && floor_mod d == floor_mod b) e in
        let p = floor_inj c a (ap (λ (z : ChunkCoord). z.x) (sym k)) (ground (arith, r)) in
        let q = floor_inj d b (ap (λ (z : ChunkCoord). z.y) (sym k)) (ground (arith, r)) in
        cc (other, both_eq_true c a d b p q))
]

module _ (cmd : PlayerCommand) (m : ChunkMap) (r : ResourceManager) (range : InRange cmd) where
  -- What the command makes of its cell and of the balances.
  abbrev pub edited : CellState × ResourceManager
  edited = edit_cell cmd.type cmd.player_id (cell_at m cmd.x cmd.y) r

  abbrev target : ChunkCoord
  target = chunk_at cmd.x cmd.y

  abbrev chunk : Chunk
  chunk = (get_or_create_chunk target m).1

  apply_command_lem : apply_command cmd (m, r) ≡ (
    insert target
        (set_cell chunk (floor_mod cmd.x) (floor_mod cmd.y) edited.0)
        (get_or_create_chunk target m).0,
    edited.1,
  )
  unfolding apply_command cell_at
  apply_command_lem = rw (
    command_coord-chunk_at cmd range,
    local_coordinate-floor_mod cmd.x,
    local_coordinate-floor_mod cmd.y,
    get_cell-get_or_create_chunk target m (floor_mod cmd.x) (floor_mod cmd.y),
  )

  read_edited :
      (gx gy : ℤ)
      → read_or_dead
          (find (chunk_at gx gy) (apply_command cmd (m, r)).0)
          (floor_mod gx)
          (floor_mod gy)
        ≡ (if coord_eq target (chunk_at gx gy)
              && (floor_mod gx == floor_mod cmd.x && floor_mod gy == floor_mod cmd.y)
            then edited.0
            else cell_at m gx gy)
  unfolding cell_at read_or_dead
  read_edited gx gy =
      rw (apply_command_lem, find-insert)
        (elim (Bool-cases (coord_eq target (chunk_at gx gy))) [
          | inl hit ↦
              let k = (coord_eq_iff target (chunk_at gx gy)).0 hit in
              rw hit (
                get_cell-set_cell chunk (floor_mod cmd.x) (floor_mod cmd.y) edited.0 (floor_mod gx)
                  (floor_mod gy) (floor_mod-lt cmd.x, floor_mod-lt cmd.y)
                  (floor_mod-lt gx, floor_mod-lt gy)
                ∙ rw (get_cell-get_or_create_chunk target m (floor_mod gx) (floor_mod gy), k))
          | inr miss ↦ rw (miss, find-get_or_create_chunk target (chunk_at gx gy) m miss)
        ])

  -- A command edits the cell at its coordinates, as the `switch` says, and no other cell of the grid;
  -- the balances are as the `switch` leaves them. The command's chunk has to fit an `int`.
  pub cell_at-apply_command :
      ((gx gy : ℤ)
        → cell_at (apply_command cmd (m, r)).0 gx gy
          ≡ (if gx ==ℤ cmd.x && gy ==ℤ cmd.y then edited.0 else cell_at m gx gy))
      × ((apply_command cmd (m, r)).1 ≡ edited.1)
  unfolding cell_at
  cell_at-apply_command = (
    λ gx gy. read_edited gx gy ∙ rw (same_place cmd.x cmd.y gx gy),
    ap (λ (s : ChunkMap × ResourceManager). s.1) apply_command_lem,
  )
