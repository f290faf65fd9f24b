-- ===== src/GameServer/Tick.antt =====
-- server/src/GameServer.cpp, `onTick` as a whole: what a tick does to the world, the queue, the
-- balances and the cached snapshot.
use multilife.Prelude.{
  ℕ, zero, suc, ◌+◌, ◌%◌, ◌^◌, ◌≤◌, ◌≡◌, refl, ◌∙◌, sym, ap, if◌then◌else◌, inl, inr, Bool-cases,
  List, [], ◌∷◌, ◌++◌, length, append_assoc, append-nil, each, arith,
}
use multilife.Prelude.Int.{ℤ}
use multilife.Prelude.Map.{find}
use multilife.Types.{ChunkCoord, coord_eq, chunk_coord_eq, PlayerCommand}
use multilife.Chunk.{Chunk, get_cell, is_dirty, clear_dirty}
use multilife.Chunk.Life.{Evolves}
use multilife.Resources.{ResourceManager, award_from_live_counts, get_balance}
use multilife.Resources.Balances.{Fits, total, get_balance-award_from_live_counts}
use multilife.World.{ChunkMap, read_or_dead, apply_commands}
use multilife.World.Coordinates.{floor_mod}
use multilife.Serializer.{
  serialize_delta, serialize_delta_from, serialize_full, serialize_full_from, live_entries, Entry,
  append_chunk,
}
use multilife.Wire.{flag_full}
use multilife.Threads.{drain, push, try_pop}
use multilife.Sender.Delivery.{rewrite_snapshot_seq_nums-serialize_full}
use multilife.GameServer.{
  GameServer, simulate, total_counts, broadcast, apply_batch, on_tick, refresh_full_snapshot_cache,
  get_full_snapshot_for_seq, on_commands_from_network,
}
use multilife.GameServer.Grid.{chunk_at, cell_at, neighbors_at}
use multilife.GameServer.Generation.{AllValid, Evolves-simulate}

drain_lem {ℓ} :
    {A : Type ℓ} (fuel : ℕ) (queue batch : List A)
    → length queue ≤ fuel
    → drain fuel queue batch ≡ (batch ++ queue, [])
unfolding drain try_pop
drain_lem zero [] batch h = rw (append-nil batch)
drain_lem zero (a ∷ queue) batch h = absurd (omega arith)
drain_lem (suc fuel) [] batch h = rw (append-nil batch)
drain_lem (suc fuel) (a ∷ queue) batch h =
    rw (drain_lem fuel queue (batch ++ (a ∷ [])) (omega arith))
      (rw (append_assoc batch (a ∷ []) queue))

apply_batch_lem :
    (batch : List PlayerCommand) (s : ChunkMap × ResourceManager)
    → apply_batch batch s ≡ apply_commands batch s
unfolding apply_batch apply_commands each
apply_batch_lem [] s = refl
apply_batch_lem (cmd ∷ batch) s = refl

get_cell-clear_dirty : (c : Chunk) (x y : ℕ) → get_cell (clear_dirty c) x y ≡ get_cell c x y
unfolding clear_dirty get_cell
get_cell-clear_dirty c x y = refl

read-serialize_delta_from :
    (seq_num : ℕ) (m : ChunkMap) (out : List ℕ) (k : ChunkCoord) (x y : ℕ)
    → read_or_dead (find k (serialize_delta_from seq_num m out).1) x y ≡ read_or_dead (find k m) x y
unfolding serialize_delta_from find read_or_dead get_cell clear_dirty
read-serialize_delta_from seq_num [] out k x y = refl
read-serialize_delta_from seq_num ((j, c) ∷ m) out k x y = elim (Bool-cases (coord_eq j k)) [
  | inl hit ↦ elim (Bool-cases (is_dirty c)) [
    | inl dirty ↦ rw (hit, dirty)
    | inr clean ↦ rw (hit, clean)
  ]
  | inr miss ↦ rw miss (read-serialize_delta_from seq_num m _ k x y)
]

cell_at-serialize_delta :
    (seq_num : ℕ) (m : ChunkMap) (gx gy : ℤ)
    → cell_at (serialize_delta seq_num m).1 gx gy ≡ cell_at m gx gy
unfolding serialize_delta cell_at
cell_at-serialize_delta seq_num m gx gy =
    read-serialize_delta_from seq_num m [] (chunk_at gx gy) (floor_mod gx) (floor_mod gy)

-- The broadcast only clears dirty lists.
record Keeps (g h : GameServer) : Type 0 where
  cells : (gx gy : ℤ) → cell_at h.world gx gy ≡ cell_at g.world gx gy
  snapshot : (n : ℕ) → serialize_full n h.world ≡ serialize_full n g.world
  resources : h.resources ≡ g.resources
  queue : h.command_queue ≡ g.command_queue
  seq_num : h.broadcast_seq ≡ g.broadcast_seq
  cached : h.cached_full_snapshot ≡ g.cached_full_snapshot

live_entries-clear_dirty : (c : Chunk) → live_entries (clear_dirty c) ≡ live_entries c
unfolding live_entries clear_dirty get_cell
live_entries-clear_dirty c = refl

live_entries-sent :
    (c : Chunk) → live_entries (if is_dirty c then clear_dirty c else c) ≡ live_entries c
live_entries-sent c = elim (Bool-cases (is_dirty c)) [
  | inl dirty ↦ rw dirty (live_entries-clear_dirty c)
  | inr clean ↦ rw clean
]

serialize_full_from-serialize_delta_from :
    (n seq_num : ℕ) (m : ChunkMap) (out bytes : List ℕ)
    → serialize_full_from n (serialize_delta_from seq_num m out).1 bytes
      ≡ serialize_full_from n m bytes
unfolding serialize_full_from serialize_delta_from
serialize_full_from-serialize_delta_from n seq_num [] out bytes = refl
serialize_full_from-serialize_delta_from n seq_num ((k, c) ∷ m) out bytes =
    serialize_full_from-serialize_delta_from n seq_num m _ _
    ∙ ap (λ (es : List Entry). serialize_full_from n m (append_chunk bytes n flag_full k es))
        (live_entries-sent c)

broadcast-Keeps : (counts : List (ℕ × ℕ)) (g : GameServer) → Keeps g (broadcast counts g).0
unfolding broadcast serialize_delta serialize_full
broadcast-Keeps counts g = elim (Bool-cases g.has_network) [
  | inl on ↦ rw on (record {
    cells = cell_at-serialize_delta g.broadcast_seq g.world;
    snapshot = λ n. serialize_full_from-serialize_delta_from n g.broadcast_seq g.world [] [];
    resources = refl;
    queue = refl;
    seq_num = refl;
    cached = refl;
  })
  | inr off ↦ rw off (record {
    cells = λ gx gy. refl;
    snapshot = λ n. refl;
    resources = refl;
    queue = refl;
    seq_num = refl;
    cached = refl;
  })
]

drained :
    (g : GameServer) → drain (length g.command_queue) g.command_queue [] ≡ (g.command_queue, [])
drained g = drain_lem (length g.command_queue) g.command_queue [] (omega arith)

-- The world and the balances after the commands of the batch.
abbrev pub edited_world : GameServer → ChunkMap × ResourceManager
edited_world g = apply_commands g.command_queue (simulate g.world, g.resources)

abbrev pub settled : GameServer → GameServer
settled g = refresh_full_snapshot_cache (record g {
  broadcast_seq = (g.broadcast_seq + 1) % 2 ^ 32;
  command_queue = [];
  world = (edited_world g).0;
  resources = award_from_live_counts (edited_world g).1 (total_counts (edited_world g).0);
})

-- The tick, with the queue drained and the batch applied.
pub on_tick_lem :
    (g : GameServer) → on_tick g ≡ broadcast (total_counts (edited_world g).0) (settled g)
unfolding on_tick
on_tick_lem g = rw (drained g, apply_batch_lem g.command_queue (simulate g.world, g.resources))

on_tick-Keeps : (g : GameServer) → Keeps (settled g) (on_tick g).0
on_tick-Keeps g = rw (on_tick_lem g) (broadcast-Keeps (total_counts (edited_world g).0) (settled g))

-- A tick simulates first, and then applies the commands of the queue in their order: every cell of
-- the grid is as these two leave it. The queue is empty then, and the sequence number one further.
pub on_tick-edited :
    (g : GameServer)
    → ((gx gy : ℤ) → cell_at (on_tick g).0.world gx gy ≡ cell_at (edited_world g).0 gx gy)
      × ((on_tick g).0.command_queue ≡ [])
      × ((on_tick g).0.broadcast_seq ≡ (g.broadcast_seq + 1) % 2 ^ 32)
unfolding refresh_full_snapshot_cache
on_tick-edited g = let k = on_tick-Keeps g in (k.cells, k.queue, k.seq_num)

-- The cache is up to date after a tick.
pub on_tick-cached :
    (g : GameServer) → (on_tick g).0.cached_full_snapshot ≡ serialize_full 0 (on_tick g).0.world
unfolding refresh_full_snapshot_cache
on_tick-cached g = let k = on_tick-Keeps g in k.cached ∙ sym (k.snapshot 0)

-- A tick without commands is one step of the game on the infinite grid, if every chunk is valid.
pub on_tick-Evolves :
    (g : GameServer) (gx gy : ℤ)
    → AllValid g.world
    → g.command_queue ≡ []
    → Evolves
        (cell_at g.world gx gy)
        (neighbors_at g.world gx gy)
        (cell_at (on_tick g).0.world gx gy)
unfolding apply_commands each
on_tick-Evolves g gx gy v e = rw ((on_tick-edited g).0 gx gy, e) (Evolves-simulate g.world gx gy v)

-- Each player has after the tick what the commands left, and one more for each live cell that was
-- counted, modulo 64 bits, if the balances after the commands fit 64 bits.
pub on_tick-income :
    (g : GameServer) (p : ℕ)
    → Fits (edited_world g).1
    → get_balance (on_tick g).0.resources p
      ≡ (get_balance (edited_world g).1 p + total p (total_counts (edited_world g).0)) % 2 ^ 64
unfolding refresh_full_snapshot_cache
on_tick-income g p f =
    rw ((on_tick-Keeps g).resources)
      (get_balance-award_from_live_counts (total_counts (edited_world g).0) (edited_world g).1 p f)

-- After a tick the cached snapshot, under any sequence number, is the full snapshot of the world as the
-- tick left it.
pub get_full_snapshot_for_seq-on_tick :
    (g : GameServer) (n : ℕ)
    → get_full_snapshot_for_seq (on_tick g).0 n ≡ serialize_full n (on_tick g).0.world
unfolding get_full_snapshot_for_seq refresh_full_snapshot_cache
get_full_snapshot_for_seq-on_tick g n =
    let k = on_tick-Keeps g in
    rw (k.cached, k.snapshot n)
      ((rewrite_snapshot_seq_nums-serialize_full n 0 (edited_world g).0).0)

-- The commands of one message, and then of the next, stand behind what was in the queue, in order.
pub on_commands_lem :
    (commands : List PlayerCommand) (g : GameServer)
    → (on_commands_from_network commands g).command_queue ≡ g.command_queue ++ commands
unfolding on_commands_from_network each push
on_commands_lem [] g = sym (append-nil g.command_queue)
on_commands_lem (cmd ∷ commands) g =
    on_commands_lem commands _ ∙ append_assoc g.command_queue (cmd ∷ []) commands
