-- ===== src/GameServer.antt =====
-- server/include/GameServer.hpp and server/src/GameServer.cpp: the server's state and its tick.
-- The network manager, the scheduler and the pool are objects of their own: what the server sends or
-- starts is returned as a list of effects, in order.
pub mod Grid
pub mod Quiet
pub mod Generation
pub mod Tick
pub mod Invariant
pub mod Tasks
pub mod Counts
pub mod Printed
use multilife.Prelude.{
  ℕ, ◌+◌, ◌%◌, ◌^◌, Bool, true, false, if◌then◌else◌, List, [], ◌∷◌, ◌++◌, map, length, each,
}
use multilife.Types.{PlayerCommand}
use multilife.Chunk.{Chunk, calculate_next, swap_buffers, get_live_count_by_player, add_count}
use multilife.Resources.{ResourceManager, award_from_live_counts}
use multilife.World.{ChunkMap, exchange_borders, apply_commands}
use multilife.Serializer.{serialize_delta, serialize_full}
use multilife.Sender.{rewrite_snapshot_seq_nums}
use multilife.Stats.{serialize_server_stats}
use multilife.Threads.{push, drain}

-- A task for each chunk, which works on that chunk alone; the futures are all waited for.
unfoldable pub for_each_chunk : (Chunk → Chunk) → ChunkMap → ChunkMap
for_each_chunk task = map (λ entry. (entry.0, task entry.1))

-- The simulation step of `onTick`: borders, then every `calculateNext`, then every `swapBuffers`.
unfoldable pub simulate : ChunkMap → ChunkMap
simulate m = for_each_chunk swap_buffers (for_each_chunk calculate_next (exchange_borders m))

pub record GameServer : Type 0 where
  pub has_network : Bool
  pub world : ChunkMap
  pub resources : ResourceManager
  pub command_queue : List PlayerCommand
  pub running : Bool
  pub cached_full_snapshot : List ℕ
  pub broadcast_seq : ℕ

pub data Effect : Type 0 where
  network_started : Effect
  network_stopped : Effect
  scheduler_started : Effect
  scheduler_stopped : Effect
  world_update : ℕ → List ℕ → Effect
  server_stats : List ℕ → Effect

-- `totalCounts[playerId] += count`, for each player of a chunk and each chunk of the world.
unfoldable pub total_counts : ChunkMap → List (ℕ × ℕ)
total_counts m =
    each m
      (λ entry totals.
        each (get_live_count_by_player entry.1) (λ (p, count). add_count p count) totals)
      []

unfoldable pub refresh_full_snapshot_cache : GameServer → GameServer
refresh_full_snapshot_cache g = record g { cached_full_snapshot = serialize_full 0 g.world }

unfoldable pub get_full_snapshot_for_seq : GameServer → ℕ → List ℕ
get_full_snapshot_for_seq g seq_num = rewrite_snapshot_seq_nums g.cached_full_snapshot seq_num

unfoldable pub on_commands_from_network : List PlayerCommand → GameServer → GameServer
on_commands_from_network commands g =
    each commands (λ cmd s. record s { command_queue = push cmd s.command_queue }) g

unfoldable pub start : GameServer → GameServer × List Effect
start g = if g.running then (g, []) else (
  refresh_full_snapshot_cache (record g { running = true }),
  (if g.has_network then network_started ∷ [] else []) ++ (scheduler_started ∷ []),
)

unfoldable pub stop : GameServer → GameServer × List Effect
stop g =
    if g.running
    then (
      record g { running = false },
      scheduler_stopped ∷ (if g.has_network then network_stopped ∷ [] else []),
    )
    else (g, [])

abbrev pub world_updates : ℕ → List ℕ → List Effect
world_updates seq_num [] = []
world_updates seq_num (b ∷ bytes) = world_update seq_num (b ∷ bytes) ∷ []

abbrev pub stats_updates : List ℕ → List Effect
stats_updates [] = []
stats_updates (b ∷ bytes) = server_stats (b ∷ bytes) ∷ []

-- The last part of `onTick`: the delta, which also clears the lists of dirty cells, and the stats.
unfoldable pub broadcast : List (ℕ × ℕ) → GameServer → GameServer × List Effect
broadcast counts g =
    if g.has_network
    then (let (bytes, world) = serialize_delta g.broadcast_seq g.world in
        (
          record g { world = world },
          world_updates g.broadcast_seq bytes
              ++ stats_updates (serialize_server_stats g.broadcast_seq g.resources counts),
        ))
    else (g, [])

-- The batch of commands, where there are any.
unfoldable pub apply_batch :
    List PlayerCommand → ChunkMap × ResourceManager → ChunkMap × ResourceManager
apply_batch [] s = s
apply_batch (cmd ∷ batch) s = apply_commands (cmd ∷ batch) s

-- `onTick`, without `printDebugState`, which only prints.
unfoldable pub on_tick : GameServer → GameServer × List Effect
on_tick g =
    let (batch, queue) = drain (length g.command_queue) g.command_queue [] in
    let (world, resources) = apply_batch batch (simulate g.world, g.resources) in
    let counts = total_counts world in
    broadcast counts (
      refresh_full_snapshot_cache (record g {
        broadcast_seq = (g.broadcast_seq + 1) % 2 ^ 32;
        command_queue = queue;
        world = world;
        resources = award_from_live_counts resources counts;
      }))
