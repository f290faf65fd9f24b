-- ===== src/GameServer/Invariant.antt =====
-- server/src/GameServer.cpp, `onTick`: what holds of the world after every tick.
use multilife.Prelude.{
  ℕ, ◌≡◌, ◌≢◌, refl, Bool, true, false, ◌&&◌, ◌==◌, if◌then◌else◌, inl, inr, Bool-cases, List, [],
  ◌∷◌, each, All, Option, none, some, Option-cases, ==_iff, arith,
}
use mathlib.Core.Option
use multilife.Prelude.Int.{ℤ, ◌==ℤ◌}
use multilife.Prelude.Map.{find, Everywhere, Everywhere-insert}
use multilife.Types.{ChunkCoord, CellState, coord_eq, chunk_coord_eq, PlayerCommand}
use multilife.Chunk
use multilife.Chunk.{Chunk, set_cell, is_dirty, clear_dirty, counts}
use multilife.Chunk.Cells.{IsValid}
use multilife.Chunk.Votes.{live_count, votes, IsMajority}
use multilife.Chunk.Life.{Evolves}
use multilife.Resources.{ResourceManager}
use multilife.World.{ChunkMap, get_or_create_chunk, apply_command, apply_commands, command_coord}
use multilife.World.Edits.{IsOwned, edit_cell-IsOwned}
use multilife.World.Commands.{InRange, cell_at-apply_command}
use multilife.Serializer.{serialize_delta, serialize_delta_from}
use multilife.GameServer.{
  GameServer, simulate, broadcast, on_tick, total_counts, refresh_full_snapshot_cache,
}
use multilife.GameServer.Grid.{cell_at, neighbors_at}
use multilife.GameServer.Generation.{AllValid, Evolves-simulate, simulate-AllValid}
use multilife.GameServer.Tick.{on_tick-edited, on_tick_lem, settled, edited_world}

-- Every cell of the grid is alive exactly if it has an owner.
abbrev pub AllOwned : ChunkMap → Type 0
AllOwned m = (gx gy : ℤ) → IsOwned (cell_at m gx gy)

-- A command of a player other than 0, within the range of chunks.
abbrev pub Proper : PlayerCommand → Type 0
Proper cmd = InRange cmd × (cmd.player_id ≢ 0)

votes_zero : (cs : List CellState) → votes 0 cs ≡ 0
unfolding votes
votes_zero [] = refl
votes_zero (c ∷ cs) = ground (arith, votes_zero cs)

majority_owner : (o : ℕ) (cs : List CellState) → IsMajority o cs → o ≢ 0
majority_owner o cs h e =
    let q : votes o cs ≡ 0 = rw e (votes_zero cs) in omega (arith, h.present, q)

IsOwned-Evolves :
    (cell : CellState) (ns : List CellState) (next : CellState)
    → Evolves cell ns next
    → IsOwned cell
    → IsOwned next
IsOwned-Evolves cell ns next e h = elim (Bool-cases cell.alive) [
  | inl a ↦ elim (Bool-cases (live_count ns == 2)) [
    | inl two ↦ rw (e.survives a (inl ((==_iff _ 2).0 two))) h
    | inr no_two ↦ elim (Bool-cases (live_count ns == 3)) [
      | inl three ↦ rw (e.survives a (inr ((==_iff _ 3).0 three))) h
      | inr no_three ↦ rw (e.dies a (ground arith) (ground arith)) (ground arith)
    ]
  ]
  | inr a ↦ elim (Bool-cases (live_count ns == 3)) [
    | inl three ↦
        let (alive, majority) = e.born a ((==_iff _ 3).0 three) in
        (λ f. cc (f, alive), λ t. majority_owner next.owner ns majority)
    | inr no_three ↦ rw (e.rests a (ground arith)) h
  ]
]

pub simulate-AllOwned : (m : ChunkMap) → AllValid m → AllOwned m → AllOwned (simulate m)
simulate-AllOwned m v h gx gy =
    IsOwned-Evolves (cell_at m gx gy) (neighbors_at m gx gy) (cell_at (simulate m) gx gy)
      (Evolves-simulate m gx gy v) (h gx gy)

either-IsOwned : (b : Bool) (c d : CellState) → IsOwned c → IsOwned d → IsOwned (if b then c else d)
either-IsOwned true c d h k = h
either-IsOwned false c d h k = k

apply_command-AllOwned :
    (cmd : PlayerCommand) (m : ChunkMap) (r : ResourceManager)
    → Proper cmd
    → AllOwned m
    → AllOwned (apply_command cmd (m, r)).0
apply_command-AllOwned cmd m r (range, known) h gx gy =
    rw ((cell_at-apply_command cmd m r range).0 gx gy) (
      either-IsOwned (gx ==ℤ cmd.x && gy ==ℤ cmd.y) _ (cell_at m gx gy)
        (edit_cell-IsOwned cmd.type cmd.player_id (cell_at m cmd.x cmd.y) r known (h cmd.x cmd.y))
        (h gx gy))

module _ (P : Chunk → Type 0) where
  pub Everywhere-get_or_create_chunk :
      (k : ChunkCoord) (m : ChunkMap)
      → P Chunk.new
      → Everywhere P m
      → P (get_or_create_chunk k m).1 × Everywhere P (get_or_create_chunk k m).0
  unfolding get_or_create_chunk
  Everywhere-get_or_create_chunk k m h v = elim (Option-cases (find k m)) [
    | inl free ↦ rw (free, get_or_create_chunk) (h, Everywhere-insert P k Chunk.new m h v)
    | inr (c, used) ↦ rw (used, get_or_create_chunk) (v k c used, v)
  ]

new-IsValid : IsValid Chunk.new
unfolding Chunk.new
new-IsValid = omega arith

apply_command-AllValid :
    (cmd : PlayerCommand) (s : ChunkMap × ResourceManager)
    → AllValid s.0
    → AllValid (apply_command cmd s).0
unfolding apply_command set_cell
apply_command-AllValid cmd (m, r) v =
    let (here, others) =
      Everywhere-get_or_create_chunk IsValid (command_coord cmd) m new-IsValid v in
    Everywhere-insert IsValid (command_coord cmd) _ (get_or_create_chunk (command_coord cmd) m).0
      here others

pub apply_commands-Good :
    (cmds : List PlayerCommand) (m : ChunkMap) (r : ResourceManager)
    → All Proper cmds
    → AllValid m
    → AllOwned m
    → AllValid (apply_commands cmds (m, r)).0 × AllOwned (apply_commands cmds (m, r)).0
unfolding apply_commands each
apply_commands-Good [] m r p v h = (v, h)
apply_commands-Good (cmd ∷ cmds) m r p v h =
    apply_commands-Good cmds (apply_command cmd (m, r)).0 (apply_command cmd (m, r)).1 p.1
      (apply_command-AllValid cmd (m, r) v) (apply_command-AllOwned cmd m r p.0 h)

abbrev buffer_index : Chunk → ℕ
buffer_index c = c.current_buffer_index

index-serialize_delta_from :
    (seq_num : ℕ) (m : ChunkMap) (out : List ℕ) (k : ChunkCoord)
    → Option.map buffer_index (find k (serialize_delta_from seq_num m out).1)
      ≡ Option.map buffer_index (find k m)
unfolding serialize_delta_from find clear_dirty
index-serialize_delta_from seq_num [] out k = refl
index-serialize_delta_from seq_num ((j, c) ∷ m) out k = elim (Bool-cases (coord_eq j k)) [
  | inl hit ↦ elim (Bool-cases (is_dirty c)) [
    | inl dirty ↦ rw (hit, dirty)
    | inr clean ↦ rw (hit, clean)
  ]
  | inr miss ↦ rw miss (index-serialize_delta_from seq_num m _ k)
]

same_index :
    (o p : Option Chunk) (d : Chunk)
    → Option.map buffer_index p ≡ Option.map buffer_index o
    → ((c : Chunk) → o ≡ some c → IsValid c)
    → p ≡ some d
    → IsValid d
same_index none none d e v f = cc (f)
same_index none (some b) d e v f = cc (e)
same_index (some c) none d e v f = cc
same_index (some c) (some b) d e v f =
    let i : buffer_index b ≡ buffer_index c = cc (e) in
    let q : b ≡ d = cc (f) in let h = v c refl in rw (← q) (omega (arith, i, h))

broadcast-AllValid :
    (totals : List (ℕ × ℕ)) (g : GameServer)
    → AllValid g.world
    → AllValid (broadcast totals g).0.world
unfolding broadcast serialize_delta
broadcast-AllValid totals g v = elim (Bool-cases g.has_network) [
  | inl on ↦ rw on (λ k d e.
      same_index (find k g.world) _ d (index-serialize_delta_from g.broadcast_seq g.world [] k)
        (v k) e)
  | inr off ↦ rw off v
]

-- Every chunk is valid and every cell of the grid is alive exactly if it has an owner: if this holds, and
-- the commands of the queue are of players other than 0 and within range, it holds after the tick.
pub on_tick-Good :
    (g : GameServer)
    → All Proper g.command_queue
    → AllValid g.world
    → AllOwned g.world
    → AllValid (on_tick g).0.world × AllOwned (on_tick g).0.world
unfolding refresh_full_snapshot_cache
on_tick-Good g p v h =
    let (valid, owned) =
      apply_commands-Good g.command_queue (simulate g.world) g.resources p
        (simulate-AllValid g.world v) (simulate-AllOwned g.world v h) in
    (
      rw (on_tick_lem g) (broadcast-AllValid (total_counts (edited_world g).0) (settled g) valid),
      λ gx gy. rw ((on_tick-edited g).0 gx gy) (owned gx gy),
    )
