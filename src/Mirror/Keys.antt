-- ===== src/Mirror/Keys.antt =====
-- server/src/GameServer.cpp, `onTick`: the map of chunks keeps one entry for each key.
use multilife.Prelude.{
  ℕ, ◌≡◌, refl, ◌∙◌, inl, inr, Bool-cases, List, [], ◌∷◌, each_keep, none, Option-cases, arith,
}
use multilife.Prelude.Map.{find, insert, find-insert}
use multilife.Types.{ChunkCoord, coord_eq, coord_eq_iff, chunk_coord_eq, PlayerCommand}
use multilife.Chunk
use multilife.Chunk.{
  Chunk, DirtyCell, Buffer, Sweep, dirty_cell, set_cell, next_cell, sweep, calculate_next,
  swap_buffers, is_dirty, clear_dirty,
}
use multilife.Resources.{ResourceManager}
use multilife.World.{
  ChunkMap, coords, chunks_to_create, create, get_or_create_chunk, ensure_simulation_margin,
  exchange_chunk, exchange_borders, apply_command, apply_commands, command_coord,
}
use multilife.Serializer.{serialize_delta_from}
use multilife.GameServer.{for_each_chunk, simulate}
use multilife.GameServer.Grid.{find-for_each_chunk}
use multilife.Mirror.{HasOneEach}

HasOneEach-insert :
    (k : ChunkCoord) (c : Chunk) (m : ChunkMap) → HasOneEach m → HasOneEach (insert k c m)
unfolding HasOneEach insert find
HasOneEach-insert k c [] h = (refl, tt)
HasOneEach-insert k c ((j, d) ∷ m) h = elim (Bool-cases (coord_eq j k)) [
  | inl hit ↦ rw hit h
  | inr miss ↦ rw miss (
    find-insert k j c m ∙ ground (arith, h.0, coord_eq_iff k j, coord_eq_iff j k),
    HasOneEach-insert k c m h.1,
  )
]

HasOneEach-get_or_create_chunk :
    (k : ChunkCoord) (m : ChunkMap) → HasOneEach m → HasOneEach (get_or_create_chunk k m).0
unfolding get_or_create_chunk
HasOneEach-get_or_create_chunk k m h = elim (Option-cases (find k m)) [
  | inl free ↦ rw (free, get_or_create_chunk) (HasOneEach-insert k Chunk.new m h)
  | inr (c, used) ↦ rw (used, get_or_create_chunk) h
]

HasOneEach-exchange_chunk :
    (k : ChunkCoord) (m : ChunkMap) → HasOneEach m → HasOneEach (exchange_chunk k m)
unfolding exchange_chunk
HasOneEach-exchange_chunk k m h = elim (Option-cases (find k m)) [
  | inl free ↦ rw (free, exchange_chunk) h
  | inr (c, used) ↦ rw (used, exchange_chunk) (HasOneEach-insert k _ m h)
]

HasOneEach-exchange_borders : (m : ChunkMap) → HasOneEach m → HasOneEach (exchange_borders m)
unfolding exchange_borders ensure_simulation_margin create
HasOneEach-exchange_borders m h =
    each_keep HasOneEach (coords (ensure_simulation_margin m)) exchange_chunk _
      (each_keep HasOneEach (chunks_to_create m) create m h HasOneEach-get_or_create_chunk)
      HasOneEach-exchange_chunk

HasOneEach-for_each_chunk :
    (task : Chunk → Chunk) (m : ChunkMap) → HasOneEach m → HasOneEach (for_each_chunk task m)
unfolding HasOneEach for_each_chunk
HasOneEach-for_each_chunk task [] h = tt
HasOneEach-for_each_chunk task ((k, c) ∷ m) h =
    (find-for_each_chunk task m k ∙ rw h.0, HasOneEach-for_each_chunk task m h.1)

pub simulate-HasOneEach : (m : ChunkMap) → HasOneEach m → HasOneEach (simulate m)
unfolding simulate
simulate-HasOneEach m h =
    HasOneEach-for_each_chunk swap_buffers _
      (HasOneEach-for_each_chunk calculate_next _ (HasOneEach-exchange_borders m h))

pub apply_commands-HasOneEach :
    (cmds : List PlayerCommand) (s : ChunkMap × ResourceManager)
    → HasOneEach s.0
    → HasOneEach (apply_commands cmds s).0
unfolding apply_commands apply_command
apply_commands-HasOneEach cmds s h =
    each_keep (λ (t : ChunkMap × ResourceManager). HasOneEach t.0) cmds apply_command s h
      (λ cmd t k.
        HasOneEach-insert (command_coord cmd) _ _
          (HasOneEach-get_or_create_chunk (command_coord cmd) t.0 k))

free-serialize_delta_from :
    (seq_num : ℕ) (m : ChunkMap) (out : List ℕ) (k : ChunkCoord)
    → find k m ≡ none
    → find k (serialize_delta_from seq_num m out).1 ≡ none
unfolding find serialize_delta_from
free-serialize_delta_from seq_num [] out k e = refl
free-serialize_delta_from seq_num ((j, c) ∷ m) out k e = elim (Bool-cases (coord_eq j k)) [
  | inl hit ↦ ground (arith, e, hit)
  | inr miss ↦ rw miss (free-serialize_delta_from seq_num m _ k (rw miss at e))
]

pub serialize_delta_from-HasOneEach :
    (seq_num : ℕ) (m : ChunkMap) (out : List ℕ)
    → HasOneEach m
    → HasOneEach (serialize_delta_from seq_num m out).1
unfolding HasOneEach serialize_delta_from
serialize_delta_from-HasOneEach seq_num [] out h = tt
serialize_delta_from-HasOneEach seq_num ((k, c) ∷ m) out h =
    (free-serialize_delta_from seq_num m _ k h.0, serialize_delta_from-HasOneEach seq_num m _ h.1)
