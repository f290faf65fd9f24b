-- ===== src/Mirror/Tick.antt =====
-- server/src/GameServer.cpp, `onTick`, and the client's end of it: a client that has the cells of the server
-- before a tick has them after it.
use multilife.Prelude.{
  ℕ, ◌+◌, ◌%◌, ◌^◌, ◌≡◌, ◌⊎◌, refl, sym, ◌∙◌, ap, true, inl, inr, List, [], ◌∷◌, ◌++◌, map, All,
  some, arith, append-nil,
}
use multilife.Prelude.Int.{ℤ}
use multilife.Types.{chunk_coord_eq, CellState, PlayerCommand}
use multilife.World.{ChunkMap}
use multilife.World.Coordinates.{cell_at}
use multilife.World.Commands.{InRange}
use multilife.Serializer.{serialize_delta, serialize_delta_from}
use multilife.Serializer.Payload.{encode, delta_packets}
use multilife.Sender.{send_payload_to, send_loop}
use multilife.Sender.Delivery.{send_payload_to-serialize_delta}
use multilife.Client.Network.{NetworkClient}
use multilife.Client.WorldModel.{WorldModel, owner_at}
use multilife.GameServer.{
  GameServer, simulate, broadcast, on_tick, refresh_full_snapshot_cache, world_updates,
  stats_updates,
}
use multilife.GameServer.Generation.{AllValid, simulate-AllValid}
use multilife.GameServer.Invariant.{
  AllOwned, Proper, apply_commands-Good, simulate-AllOwned, on_tick-Good,
}
use multilife.GameServer.Tick.{on_tick_lem, on_tick-edited, edited_world}
use multilife.Mirror.{HasOneEach, AllWithin, IsMarked, Mirrors, datagrams, receive}
use multilife.Mirror.Keys.{
  simulate-HasOneEach, apply_commands-HasOneEach, serialize_delta_from-HasOneEach,
}
use multilife.Mirror.Within.{
  simulate-AllWithin, apply_commands-AllWithin, serialize_delta_from-AllWithin,
}
use multilife.Mirror.Marks.{simulate-IsMarked, apply_commands-IsMarked}
use multilife.Mirror.Truth.{delta_mirrors}
use multilife.Mirror.Wired.{FitsWire, receive-encode, delta_packets-Encodable}

-- What the client needs to know of a server: the invariants of its world.
pub record Sound (m : ChunkMap) : Type 0 where
  pub valid : AllValid m
  pub owned : AllOwned m
  pub one_each : HasOneEach m
  pub within : AllWithin m

abbrev sequence_number : GameServer → ℕ
sequence_number g = (g.broadcast_seq + 1) % 2 ^ 32

In_range : (cmds : List PlayerCommand) → All Proper cmds → All InRange cmds
In_range [] h = tt
In_range (cmd ∷ cmds) h = (h.0.0, In_range cmds h.1)

edited-IsMarked :
    (g : GameServer) (gx gy : ℤ)
    → AllValid g.world
    → All InRange g.command_queue
    → IsMarked (edited_world g).0 gx gy ⊎ (cell_at (edited_world g).0 gx gy ≡ cell_at g.world gx gy)
edited-IsMarked g gx gy v range =
    apply_commands-IsMarked g.command_queue (simulate g.world) g.resources gx gy
      (cell_at g.world gx gy) range (simulate-IsMarked g.world gx gy v)

datagrams-stats : (bytes : List ℕ) → datagrams (stats_updates bytes) ≡ []
unfolding datagrams
datagrams-stats [] = refl
datagrams-stats (b ∷ bytes) = refl

nothing_to_send : send_payload_to [] ≡ some []
unfolding send_payload_to send_loop
nothing_to_send = refl

datagrams-world_updates :
    (seq_num : ℕ) (payload : List ℕ) (ds : List (List ℕ)) (stats : List ℕ)
    → send_payload_to payload ≡ some ds
    → datagrams (world_updates seq_num payload ++ stats_updates stats) ≡ ds
unfolding datagrams
datagrams-world_updates seq_num [] ds stats e =
    let q : [] ≡ ds = cc (e, nothing_to_send) in datagrams-stats stats ∙ q
datagrams-world_updates seq_num (b ∷ payload) ds stats e =
    rw (e, datagrams-stats stats) (append-nil ds)

-- What a tick sends, where there is a network.
on_tick-datagrams :
    (g : GameServer)
    → g.has_network ≡ true
    → datagrams (on_tick g).1 ≡ map encode (delta_packets (sequence_number g) (edited_world g).0)
unfolding broadcast refresh_full_snapshot_cache
on_tick-datagrams g on =
    rw (on_tick_lem g, on)
      (datagrams-world_updates (sequence_number g) _ _ _
        (send_payload_to-serialize_delta (sequence_number g) (edited_world g).0).0)

-- What a tick leaves of the world.
on_tick-world :
    (g : GameServer)
    → g.has_network ≡ true
    → (on_tick g).0.world ≡ (serialize_delta_from (sequence_number g) (edited_world g).0 []).1
unfolding broadcast refresh_full_snapshot_cache serialize_delta
on_tick-world g on = rw (on_tick_lem g, on)

pub edited-Sound :
    (g : GameServer) → All Proper g.command_queue → Sound g.world → Sound (edited_world g).0
edited-Sound g proper s =
    let (valid, owned) =
      apply_commands-Good g.command_queue (simulate g.world) g.resources proper
        (simulate-AllValid g.world s.valid) (simulate-AllOwned g.world s.valid s.owned) in
    record {
      valid = valid;
      owned = owned;
      one_each =
          apply_commands-HasOneEach g.command_queue (simulate g.world, g.resources)
            (simulate-HasOneEach g.world s.one_each);
      within =
          apply_commands-AllWithin g.command_queue (simulate g.world, g.resources)
            (simulate-AllWithin g.world s.within);
    }

pub on_tick-Sound :
    (g : GameServer)
    → g.has_network ≡ true
    → All Proper g.command_queue
    → Sound g.world
    → Sound (on_tick g).0.world
on_tick-Sound g on proper s =
    let edited = edited-Sound g proper s in
    let (valid, owned) = on_tick-Good g proper s.valid s.owned in
    record {
      valid = valid;
      owned = owned;
      one_each = rw (on_tick-world g on) (
          serialize_delta_from-HasOneEach (sequence_number g) (edited_world g).0 []
            edited.one_each);
      within = rw (on_tick-world g on) (λ k c.
          serialize_delta_from-AllWithin (sequence_number g) (edited_world g).0 [] k c
            (edited.within k));
    }

-- A client whose model has the owner of every cell of the grid before a tick has it after the tick, once
-- it has taken in the tick's datagrams, each once and in order; and the world is sound again. The
-- world has to be sound, the commands of players other than 0 and within range, and the coordinates and
-- owners that are sent have to fit their fields.
pub on_tick-Mirrors :
    (g : GameServer) (c : NetworkClient) (w : WorldModel)
    → g.has_network ≡ true
    → All Proper g.command_queue
    → Sound g.world
    → FitsWire (edited_world g).0
    → Mirrors w g.world
    → Mirrors (receive (datagrams (on_tick g).1) (c, w)).1 (on_tick g).0.world
      × Sound (on_tick g).0.world
on_tick-Mirrors g c w on proper s fits mirrors = (
  λ gx gy.
      let edited = edited-Sound g proper s in
      let m = (edited_world g).0 in
      rw (on_tick-datagrams g on) (
        ap (λ v. owner_at v gx gy)
          (receive-encode (delta_packets (sequence_number g) m) c w (
            delta_packets-Encodable m fits edited.within (sequence_number g) (omega arith)
              edited.one_each))
        ∙ (delta_mirrors m edited.owned edited.within (sequence_number g) gx gy w edited.one_each
              (known gx gy (edited-IsMarked g gx gy s.valid (In_range g.command_queue proper)))
            ∙ ap (λ (t : CellState). t.owner) (sym ((on_tick-edited g).0 gx gy)))),
  on_tick-Sound g on proper s,
)
  where
    known :
        (gx gy : ℤ)
        → IsMarked (edited_world g).0 gx gy
          ⊎ (cell_at (edited_world g).0 gx gy ≡ cell_at g.world gx gy)
        → IsMarked (edited_world g).0 gx gy
          ⊎ (owner_at w gx gy ≡ (cell_at (edited_world g).0 gx gy).owner)
    known gx gy (inl marked) = inl marked
    known gx gy (inr same) = inr (mirrors gx gy ∙ ap (λ (t : CellState). t.owner) (sym same))
