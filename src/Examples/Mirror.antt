-- ===== src/Examples/Mirror.antt =====
-- The theorems on a client that mirrors the server: a first command, and the tick that carries it out.
use multilife.Chunk
use multilife.Chunk.{Chunk, set_cell, get_cell}
use multilife.World.{
  local_coordinate, ChunkMap, apply_command, apply_commands, get_or_create_chunk, edit_cell,
  read_or_dead, exchange_borders, ensure_simulation_margin, chunks_to_create, command_coord,
}
use multilife.Mirror.{or_empty, Mirrors, datagrams, receive}
use multilife.Mirror.Tick.{edited-Sound, Sound, on_tick-Mirrors}
use multilife.Mirror.Snapshot.{AllSmall, HasNothingStale}
use multilife.Mirror.Resync.{snapshot-Mirrors}
use multilife.GameServer.{
  refresh_full_snapshot_cache, get_full_snapshot_for_seq, GameServer, on_commands_from_network,
  on_tick, simulate, for_each_chunk,
}
use multilife.Sender.{send_payload_to}
use multilife.Prelude.Map.{insert, find, find-insert}
use multilife.Serializer.{live_entries}
use multilife.Prelude.{
  ◌+◌, ◌%◌, ℕ, ◌∙◌, length, upto, some, ap, sym, ◌<◌, ◌^◌, ◌≡◌, refl, Bool, true, false, ◌&&◌,
  if◌then◌else◌, inl, inr, Bool-cases, List, [], ◌∷◌, each, none, arith, nat_eq,
}
use multilife.Examples.{cell_of, two_players, place_far}
use multilife.Prelude.Int.{pos, negsuc, ◌==ℤ◌}
use multilife.Types.{
  ChunkCoord, CellState, coord_eq, coord_eq_iff, chunk_coord_eq, place_cell, dead_cell,
}
use multilife.Resources.{ResourceManager, try_spend, get_balance}
use multilife.Resources.Balances.{Fits}
use multilife.GameServer.Counts.{population, population-le, on_tick-population, on_tick-pays}
use multilife.World.Coordinates.{cell_at}
use multilife.World.Commands.{cell_at-apply_command, command_coord-chunk_at}
use multilife.Client.WorldModel.{WorldModel, owner_at, cell_key_eq}
use multilife.GameServer.Invariant.{Proper}
use multilife.GameServer.Tick.{edited_world}
use multilife.Mirror.Wired.{FitsWire}
use multilife.Mirror.Run.{Event, received, tick, run, InLimits, run-Mirrors}
use multilife.Threads.{push}
use multilife.ServerMain.Soundness.{no_world-Sound}
use multilife.Examples.Start.{new_game}
use multilife.Examples.Window.{client}

abbrev nothing_seen : WorldModel
nothing_seen = record { alive_cells = []; generation = 0 }

nothing_seen-Mirrors : Mirrors nothing_seen []
unfolding owner_at cell_at find read_or_dead
nothing_seen-Mirrors gx gy = refl

no_world-simulate : simulate [] ≡ []
unfolding simulate for_each_chunk exchange_borders ensure_simulation_margin chunks_to_create each
no_world-simulate = refl

abbrev one_chunk : ChunkMap
one_chunk = (apply_command place_far ([], two_players)).0

new_game-edited : (edited_world new_game).0 ≡ one_chunk
unfolding apply_commands each
new_game-edited = rw no_world-simulate

place_far-Proper : Proper place_far
place_far-Proper = ((ground arith, ground arith), ground arith)

abbrev far : ChunkCoord
far = record { x = negsuc 0; y = pos 1 }

place_far-far : command_coord place_far ≡ far
place_far-far = command_coord-chunk_at place_far place_far-Proper.0

nowhere_else : (k : ChunkCoord) → coord_eq far k ≡ false → find k one_chunk ≡ none
unfolding apply_command get_or_create_chunk find
nowhere_else k miss = rw (place_far-far, find-insert, find-insert, miss)

either_owner :
    (b : Bool) (c d : CellState)
    → c.owner < 2 ^ 64
    → d.owner < 2 ^ 64
    → (if b then c else d).owner < 2 ^ 64
either_owner true c d h k = h
either_owner false c d h k = k

placed_owner : (edit_cell place_cell 7 dead_cell two_players).0.owner < 2 ^ 64
unfolding edit_cell try_spend get_balance find
placed_owner = ground arith

one_chunk-FitsWire : FitsWire one_chunk
unfolding cell_at find read_or_dead
one_chunk-FitsWire = record {
  coordinates = λ k c e. elim (Bool-cases (coord_eq far k)) [
    | inl hit ↦
        let q = (coord_eq_iff far k).0 hit in
        rw (← q) ((omega arith, omega arith), (omega arith, omega arith))
    | inr miss ↦ cc (e, nowhere_else k miss)
  ];
  owners = λ gx gy.
      rw ((cell_at-apply_command place_far [] two_players place_far-Proper.0).0 gx gy) (
        either_owner (gx ==ℤ place_far.x && gy ==ℤ place_far.y)
          (edit_cell place_cell 7 dead_cell two_players).0 (cell_at [] gx gy) placed_owner
          (omega arith));
}

on_tick-Mirrors_example :
    Mirrors
      (receive (datagrams (on_tick new_game).1) (client, nothing_seen)).1
      (on_tick new_game).0.world
    × Sound (on_tick new_game).0.world
on_tick-Mirrors_example =
    on_tick-Mirrors new_game client nothing_seen refl (place_far-Proper, tt) no_world-Sound
      (rw new_game-edited one_chunk-FitsWire) nothing_seen-Mirrors

abbrev place_and_tick : List Event
place_and_tick = received (place_far ∷ []) ∷ tick ∷ []

abbrev waiting_game : GameServer
waiting_game = record new_game { command_queue = [] }

place_and_tick-InLimits : InLimits place_and_tick waiting_game
unfolding InLimits on_commands_from_network each push
place_and_tick-InLimits = ((place_far-Proper, tt), (rw new_game-edited one_chunk-FitsWire, tt))

run-Mirrors_example :
    Mirrors
      (receive (run place_and_tick waiting_game).0 (client, nothing_seen)).1
      (run place_and_tick waiting_game).1.world
    × Sound (run place_and_tick waiting_game).1.world
run-Mirrors_example =
    run-Mirrors place_and_tick waiting_game client nothing_seen refl tt no_world-Sound
      place_and_tick-InLimits nothing_seen-Mirrors

one_cell-length : length (live_entries (set_cell Chunk.new 63 6 (cell_of 7))) ≡ 1
unfolding live_entries upto get_cell set_cell Chunk.new
one_cell-length = refl

abbrev one_cell : Chunk
one_cell = set_cell Chunk.new 63 6 (cell_of 7)

one_chunk_lem : one_chunk ≡ (far, one_cell) ∷ []
unfolding apply_command get_or_create_chunk find insert edit_cell try_spend get_balance
    local_coordinate multilife.World.chunk_coordinate multilife.Prelude.Int.to_int32
    multilife.World.chunk_quotient multilife.Prelude.Int.tdiv multilife.Prelude.Int.◌+ℤ◌
    multilife.Prelude.Int.◌-ℤ◌ multilife.Prelude.Int.tmod get_cell Chunk.new
one_chunk_lem = refl

one_chunk-Sound : Sound one_chunk
one_chunk-Sound =
    rw (← new_game-edited) (edited-Sound new_game (place_far-Proper, tt) no_world-Sound)

one_chunk-AllSmall : AllSmall one_chunk
unfolding find
one_chunk-AllSmall k c e = elim (Bool-cases (coord_eq far k)) [
  | inl hit ↦
      let f : find k ((far, one_cell) ∷ []) ≡ some c = ap (find k) (sym one_chunk_lem) ∙ e in
      let g = rw hit at f in
      let q : one_cell ≡ c = cc (g) in rw (← q) (omega (arith, one_cell-length))
  | inr miss ↦ cc (e, nowhere_else k miss)
]

abbrev resync_game : GameServer
resync_game = refresh_full_snapshot_cache (record new_game { world = one_chunk })

nothing_seen-HasNothingStale : HasNothingStale nothing_seen one_chunk
unfolding owner_at find
nothing_seen-HasNothingStale gx gy e = refl

snapshot-Mirrors_example :
    Mirrors
      (receive
        (or_empty (send_payload_to (get_full_snapshot_for_seq resync_game 42)))
        (client, nothing_seen)).1
      one_chunk
unfolding refresh_full_snapshot_cache
snapshot-Mirrors_example =
    snapshot-Mirrors resync_game 42 client nothing_seen refl (omega arith) one_chunk-Sound
      one_chunk-FitsWire one_chunk-AllSmall nothing_seen-HasNothingStale

abbrev after_place : ResourceManager
after_place = record { balances = (7, 8) ∷ (8, 1) ∷ [] }

new_game-spent : (edited_world new_game).1 ≡ after_place
unfolding apply_commands each apply_command get_or_create_chunk edit_cell find get_cell Chunk.new
    try_spend insert
new_game-spent = rw no_world-simulate

new_game-Fits : Fits (edited_world new_game).1
unfolding get_balance find
new_game-Fits p = rw new_game-spent (ground arith)

single : length one_chunk ≡ 1
unfolding apply_command get_or_create_chunk find insert
single =
    let same : coord_eq (command_coord place_far) (command_coord place_far) ≡ true =
      (coord_eq_iff (command_coord place_far) (command_coord place_far)).1 refl in
    rw (place_far-far, same)

new_game-population : (q : ℕ) → population q (on_tick new_game).0.world < 2 ^ 64
new_game-population q =
    rw (on_tick-population q new_game, new_game-edited)
      (omega (arith, population-le q one_chunk, single))

on_tick-pays_example :
    get_balance (on_tick new_game).0.resources 7
    ≡ (get_balance (edited_world new_game).1 7 + population 7 (on_tick new_game).0.world) % 2 ^ 64
on_tick-pays_example = on_tick-pays new_game 7 new_game-Fits new_game-population
