-- ===== src/Mirror/Within.antt =====
-- server/src/GameServer.cpp, `onTick`: the lists of dirty cells name cells of their tiles.
use multilife.Prelude.{
  ℕ, ◌≡◌, refl, sym, ◌∙◌, inl, inr, Bool-cases, List, [], ◌∷◌, ◌++◌, each_keep, upto_inv, All,
  Option, some, Option-cases, arith,
}
use multilife.Prelude.Map.{Everywhere-insert, find}
use multilife.Types.{ChunkCoord, coord_eq, chunk_coord_eq, PlayerCommand, chunk_width, chunk_height}
use multilife.Chunk
use multilife.Chunk.{
  Chunk, DirtyCell, Buffer, Sweep, dirty_cell, current, set_cell, next_cell, sweep, calculate_next,
  swap_buffers, is_dirty, clear_dirty,
}
use multilife.Chunk.Cells.{Inside}
use multilife.Chunk.Next.{marked, dirty_cells-next_cell}
use multilife.Resources.{ResourceManager}
use multilife.World.{
  ChunkMap, get_or_create_chunk, exchange_borders, apply_command, apply_commands, command_coord,
}
use multilife.World.Coordinates.{floor_mod, floor_mod-lt, local_coordinate-floor_mod}
use multilife.World.Margin.{Grown, kept, made, ensure_simulation_margin-Grown}
use multilife.World.Exchange.{SameChunk, neither, both, exchange_borders-SameCells}
use multilife.Serializer.{serialize_delta_from}
use multilife.GameServer.{simulate}
use multilife.GameServer.Generation.{simulate-none, simulate-some}
use multilife.GameServer.Invariant.{Everywhere-get_or_create_chunk}
use multilife.Mirror.{IsWithin, AllWithin}

-- The list of a tile names cells of the tile.
abbrev Tidy : Chunk → Type 0
Tidy c = All IsWithin c.dirty_cells

All-snoc :
    (ds : List DirtyCell) (d : DirtyCell)
    → All IsWithin ds
    → IsWithin d
    → All IsWithin (ds ++ (d ∷ []))
All-snoc [] d h k = (k, tt)
All-snoc (e ∷ ds) d h k = (h.0, All-snoc ds d h.1 k)

dirty_cell-IsWithin : (x y : ℕ) → Inside x y → IsWithin (dirty_cell x y)
dirty_cell-IsWithin x y h = (omega (arith, h.0), omega (arith, h.1))

next_cell-Tidy :
    (b : Buffer) (x y : ℕ) (s : Sweep)
    → Inside x y
    → All IsWithin s.dirty_cells
    → All IsWithin (next_cell b y x s).dirty_cells
next_cell-Tidy b x y s h k = rw (dirty_cells-next_cell b x y s) (elim (Bool-cases (marked b x y)) [
  | inl on ↦ rw on (All-snoc s.dirty_cells (dirty_cell x y) k (dirty_cell-IsWithin x y h))
  | inr off ↦ rw off k
])

sweep-Tidy :
    (b : Buffer) (s : Sweep) → All IsWithin s.dirty_cells → All IsWithin (sweep b s).dirty_cells
unfolding sweep
sweep-Tidy b s h =
    upto_inv (λ y (t : Sweep). All IsWithin t.dirty_cells) chunk_height _ s h
      (λ y t ly k.
        upto_inv (λ x (u : Sweep). All IsWithin u.dirty_cells) chunk_width _ t k
          (λ x u lx l. next_cell-Tidy b x y u (lx, ly) l))

calculate_next-Tidy : (c : Chunk) → Tidy c → Tidy (calculate_next c)
unfolding calculate_next
calculate_next-Tidy c h = sweep-Tidy (current c) _ h

SameChunk-Tidy :
    (o p : Option Chunk) (d : Chunk)
    → SameChunk o p
    → ((c : Chunk) → o ≡ some c → Tidy c)
    → p ≡ some d
    → Tidy d
SameChunk-Tidy o p d neither h e = cc (e)
SameChunk-Tidy o p d (both {c = a} {d = b} s) h e =
    let q : b ≡ d = cc (e) in let v = h a refl in rw (← q) (rw s.dirty v)

new-Tidy : Tidy Chunk.new
unfolding Chunk.new
new-Tidy = tt

Grown-Tidy :
    (o p : Option Chunk) (d : Chunk)
    → Grown o p
    → ((c : Chunk) → o ≡ some c → Tidy c)
    → p ≡ some d
    → Tidy d
Grown-Tidy o p d (kept f) h e = h d (sym f ∙ e)
Grown-Tidy o p d (made f g) h e = let q : Chunk.new ≡ d = cc (e, g) in rw (← q) new-Tidy

exchange_borders-AllWithin : (m : ChunkMap) → AllWithin m → AllWithin (exchange_borders m)
exchange_borders-AllWithin m v k d e =
    SameChunk-Tidy _ _ d (exchange_borders-SameCells m k)
      (λ c f. Grown-Tidy _ _ c (ensure_simulation_margin-Grown m k) (v k) f) e

pub simulate-AllWithin : (m : ChunkMap) → AllWithin m → AllWithin (simulate m)
unfolding swap_buffers
simulate-AllWithin m v k d e = elim (Option-cases (find k (exchange_borders m))) [
  | inl free ↦ cc (e, simulate-none m k free)
  | inr (c, here) ↦
      let q : swap_buffers (calculate_next c) ≡ d = cc (e, simulate-some m k c here) in
      rw (← q) (calculate_next-Tidy c (exchange_borders-AllWithin m v k c here))
]

apply_command-AllWithin :
    (cmd : PlayerCommand) (s : ChunkMap × ResourceManager)
    → AllWithin s.0
    → AllWithin (apply_command cmd s).0
unfolding apply_command set_cell
apply_command-AllWithin cmd (m, r) v =
    let (here, others) = Everywhere-get_or_create_chunk Tidy (command_coord cmd) m new-Tidy v in
    Everywhere-insert Tidy (command_coord cmd) _ (get_or_create_chunk (command_coord cmd) m).0
      (All-snoc _ _ here (
        rw (local_coordinate-floor_mod cmd.x, local_coordinate-floor_mod cmd.y)
          (dirty_cell-IsWithin (floor_mod cmd.x) (floor_mod cmd.y)
            (floor_mod-lt cmd.x, floor_mod-lt cmd.y))))
      others

pub apply_commands-AllWithin :
    (cmds : List PlayerCommand) (s : ChunkMap × ResourceManager)
    → AllWithin s.0
    → AllWithin (apply_commands cmds s).0
unfolding apply_commands
apply_commands-AllWithin cmds s h =
    each_keep (λ (t : ChunkMap × ResourceManager). AllWithin t.0) cmds apply_command s h
      apply_command-AllWithin

pub serialize_delta_from-AllWithin :
    (seq_num : ℕ) (m : ChunkMap) (out : List ℕ) (k : ChunkCoord) (d : Chunk)
    → ((c : Chunk) → find k m ≡ some c → Tidy c)
    → find k (serialize_delta_from seq_num m out).1 ≡ some d
    → Tidy d
unfolding find serialize_delta_from clear_dirty
serialize_delta_from-AllWithin seq_num [] out k d h e = h d e
serialize_delta_from-AllWithin seq_num ((j, c) ∷ m) out k d h e = elim (Bool-cases (coord_eq j k)) [
  | inl hit ↦ elim (Bool-cases (is_dirty c)) [
    | inl dirty ↦ let f = rw (hit, dirty) at e in let q : clear_dirty c ≡ d = cc (f) in rw (← q) tt
    | inr clean ↦ let f = rw (hit, clean) at e in let q : c ≡ d = cc (f) in rw (← q) (h c (rw hit))
  ]
  | inr miss ↦
      serialize_delta_from-AllWithin seq_num m _ k d (λ a f. h a (rw miss f)) (rw miss at e)
]
