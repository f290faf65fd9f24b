-- ===== src/Mirror/Marks.antt =====
-- server/src/GameServer.cpp, `onTick`, before the broadcast: every cell of the grid that differs from what
-- it was before the tick is on the list of dirty cells of its chunk.
use multilife.Prelude.{
  ℕ, ◌≡◌, ◌≢◌, refl, sym, ◌∙◌, ◌⊎◌, Bool, true, false, ◌&&◌, ◌==◌, inl, inr, Bool-cases, List, [],
  ◌∷◌, each, All, In, In-append_left, In-append_right, some, Option-cases, arith, ==_iff,
}
use mathlib.Core.Path.{subst}
use multilife.Prelude.Int.{ℤ, ◌==ℤ◌, ==ℤ_iff}
use multilife.Prelude.Map.{find, find-insert}
use multilife.Types.{ChunkCoord, CellState, coord_eq, coord_eq_iff, chunk_coord_eq, PlayerCommand}
use multilife.Chunk.{Chunk, dirty_cell, set_cell, calculate_next, swap_buffers}
use multilife.Chunk.Votes.{live_count}
use multilife.Chunk.Life.{Evolves, dirty_cells-calculate_next}
use multilife.Resources.{ResourceManager}
use multilife.World.{
  ChunkMap, get_or_create_chunk, apply_command, apply_commands, command_coord, exchange_borders,
}
use multilife.World.Coordinates.{
  floor_mod, floor_mod-lt, chunk_at, cell_at, local_coordinate-floor_mod,
}
use multilife.World.Commands.{InRange, cell_at-apply_command, command_coord-chunk_at}
use multilife.GameServer.{simulate}
use multilife.GameServer.Grid.{neighbors_at}
use multilife.GameServer.Generation.{
  AllValid, Evolves-simulate, simulate-some, cell_at-simulate-none, cell_at-simulate-some,
  stored_self, exchange_borders-AllValid,
}
use multilife.GameServer.Quiet.{free_cell}
use multilife.Mirror.{IsListed, IsMarked}

same_or_not : (a b : Bool) → (a ≡ b) ⊎ (a ≢ b)
same_or_not true true = inl refl
same_or_not true false = inr (λ e. cc (e))
same_or_not false true = inr (λ e. cc (e))
same_or_not false false = inl refl

-- A cell that neither is born nor dies stays as it is.
Evolves-same :
    (cell : CellState) (ns : List CellState) (next : CellState)
    → Evolves cell ns next
    → next.alive ≡ cell.alive
    → next ≡ cell
Evolves-same cell ns next e same = elim (Bool-cases cell.alive) [
  | inl a ↦ elim (Bool-cases (live_count ns == 2)) [
    | inl two ↦ e.survives a (inl ((==_iff _ 2).0 two))
    | inr no_two ↦ elim (Bool-cases (live_count ns == 3)) [
      | inl three ↦ e.survives a (inr ((==_iff _ 3).0 three))
      | inr no_three ↦ let d = e.dies a (ground arith) (ground arith) in ground (arith, d)
    ]
  ]
  | inr a ↦ elim (Bool-cases (live_count ns == 3)) [
    | inl three ↦ let b = (e.born a ((==_iff _ 3).0 three)).0 in cc (a, b, same)
    | inr no_three ↦ e.rests a (ground arith)
  ]
]

IsMarked-simulate :
    (m : ChunkMap) (gx gy : ℤ) (c : Chunk)
    → find (chunk_at gx gy) (exchange_borders m) ≡ some c
    → In (dirty_cell (floor_mod gx) (floor_mod gy)) (calculate_next c).dirty_cells
    → IsMarked (simulate m) gx gy
unfolding IsListed swap_buffers
IsMarked-simulate m gx gy c e h = rw (simulate-some m (chunk_at gx gy) c e) h

-- The simulation step changes a cell only if it marks it.
pub simulate-IsMarked :
    (m : ChunkMap) (gx gy : ℤ)
    → AllValid m
    → IsMarked (simulate m) gx gy ⊎ (cell_at (simulate m) gx gy ≡ cell_at m gx gy)
simulate-IsMarked m gx gy v = elim (Option-cases (find (chunk_at gx gy) (exchange_borders m))) [
  | inl free ↦ inr (cell_at-simulate-none m gx gy free ∙ sym (free_cell m gx gy free))
  | inr (c, e) ↦ elim (same_or_not (cell_at (simulate m) gx gy).alive (cell_at m gx gy).alive) [
    | inl same ↦
        inr (
          Evolves-same (cell_at m gx gy) (neighbors_at m gx gy) _ (Evolves-simulate m gx gy v) same)
    | inr other ↦ inl (
        IsMarked-simulate m gx gy c e (
          (dirty_cells-calculate_next c (floor_mod gx) (floor_mod gy)
              (exchange_borders-AllValid m v (chunk_at gx gy) c e)
              (floor_mod-lt gx, floor_mod-lt gy)).1
            (inr (rw (sym (cell_at-simulate-some m gx gy c e), stored_self m gx gy c e) other))))
  ]
]

IsListed-get_or_create_chunk :
    (k : ChunkCoord) (m : ChunkMap) (x y : ℕ)
    → IsListed (find k m) x y
    → In (dirty_cell x y) (get_or_create_chunk k m).1.dirty_cells
unfolding get_or_create_chunk IsListed
IsListed-get_or_create_chunk k m x y h = elim (Option-cases (find k m)) [
  | inl free ↦ absurd (subst (λ o. IsListed o x y) free h)
  | inr (c, used) ↦ rw (used, get_or_create_chunk) (subst (λ o. IsListed o x y) used h)
]

find-get_or_create_chunk-other :
    (k j : ChunkCoord) (m : ChunkMap)
    → coord_eq k j ≡ false
    → find j (get_or_create_chunk k m).0 ≡ find j m
unfolding get_or_create_chunk
find-get_or_create_chunk-other k j m e = elim (Option-cases (find k m)) [
  | inl free ↦ rw (free, get_or_create_chunk) (rw find-insert (rw e))
  | inr (c, used) ↦ rw (used, get_or_create_chunk)
]

module _ (cmd : PlayerCommand) (m : ChunkMap) (r : ResourceManager) where
  -- A command takes no cell off a list.
  IsMarked-kept : (gx gy : ℤ) → IsMarked m gx gy → IsMarked (apply_command cmd (m, r)).0 gx gy
  unfolding apply_command set_cell IsListed
  IsMarked-kept gx gy h =
      let k = command_coord cmd in
      let j = chunk_at gx gy in
      rw find-insert (elim (Bool-cases (coord_eq k j)) [
        | inl hit ↦
            let q = (coord_eq_iff k j).0 hit in
            rw hit (
              In-append_left _ _ _
                (IsListed-get_or_create_chunk k m (floor_mod gx) (floor_mod gy) (rw q h)))
        | inr miss ↦ rw (miss, find-get_or_create_chunk-other k j m miss) h
      ])

  IsMarked-target : InRange cmd → IsMarked (apply_command cmd (m, r)).0 cmd.x cmd.y
  unfolding apply_command set_cell IsListed
  IsMarked-target range =
      let e =
        (coord_eq_iff (command_coord cmd) (chunk_at cmd.x cmd.y)).1
          (command_coord-chunk_at cmd range) in
      rw find-insert (
        rw e (
          rw (local_coordinate-floor_mod cmd.x, local_coordinate-floor_mod cmd.y)
            (In-append_right (dirty_cell (floor_mod cmd.x) (floor_mod cmd.y))
              (get_or_create_chunk (command_coord cmd) m).1.dirty_cells
              (dirty_cell (floor_mod cmd.x) (floor_mod cmd.y) ∷ []) (inl refl))))

both_same : (a b c d : ℤ) → (a ==ℤ b && c ==ℤ d) ≡ true → (a ≡ b) × (c ≡ d)
both_same a b c d e = ground (arith, ==ℤ_iff a b, ==ℤ_iff c d)

-- A command changes a cell only if it marks it.
apply_command-IsMarked :
    (cmd : PlayerCommand) (m : ChunkMap) (r : ResourceManager) (gx gy : ℤ) (was : CellState)
    → InRange cmd
    → IsMarked m gx gy ⊎ (cell_at m gx gy ≡ was)
    → IsMarked (apply_command cmd (m, r)).0 gx gy
      ⊎ (cell_at (apply_command cmd (m, r)).0 gx gy ≡ was)
apply_command-IsMarked cmd m r gx gy was range (inl h) = inl (IsMarked-kept cmd m r gx gy h)
apply_command-IsMarked cmd m r gx gy was range (inr e) =
    elim (Bool-cases (gx ==ℤ cmd.x && gy ==ℤ cmd.y)) [
      | inl hit ↦
          let (p, q) = both_same gx cmd.x gy cmd.y hit in
          inl (rw (p, q) (IsMarked-target cmd m r range))
      | inr miss ↦ inr ((cell_at-apply_command cmd m r range).0 gx gy ∙ rw miss e)
    ]

pub apply_commands-IsMarked :
    (cmds : List PlayerCommand) (m : ChunkMap) (r : ResourceManager) (gx gy : ℤ) (was : CellState)
    → All InRange cmds
    → IsMarked m gx gy ⊎ (cell_at m gx gy ≡ was)
    → IsMarked (apply_commands cmds (m, r)).0 gx gy
      ⊎ (cell_at (apply_commands cmds (m, r)).0 gx gy ≡ was)
unfolding apply_commands each
apply_commands-IsMarked [] m r gx gy was range h = h
apply_commands-IsMarked (cmd ∷ cmds) m r gx gy was range h =
    apply_commands-IsMarked cmds (apply_command cmd (m, r)).0 (apply_command cmd (m, r)).1 gx gy was
      range.1 (apply_command-IsMarked cmd m r gx gy was range.0 h)
