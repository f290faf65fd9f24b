-- ===== src/Mirror/Run.antt =====
-- server/src/GameServer.cpp: messages of players and ticks, in any order, and a client that hears it all.
use multilife.Prelude.{
  ℕ, ◌≡◌, refl, ◌∙◌, true, List, [], ◌∷◌, ◌++◌, each, each_keep, All, All-append,
}
use multilife.Types.{PlayerCommand}
use multilife.Client.Network.{NetworkClient}
use multilife.Client.WorldModel.{WorldModel}
use multilife.GameServer.{
  GameServer, broadcast, on_tick, on_commands_from_network, refresh_full_snapshot_cache,
}
use multilife.GameServer.Invariant.{Proper}
use multilife.GameServer.Tick.{on_tick_lem, on_tick-edited, edited_world, on_commands_lem}
use multilife.Mirror.{Mirrors, datagrams, take_datagram, receive}
use multilife.Mirror.Wired.{FitsWire}
use multilife.Mirror.Tick.{Sound, on_tick-Mirrors}

-- What the server is called for: by a session with the commands of a message, or by the scheduler.
pub data Event : Type 0 where
  received : List PlayerCommand → Event
  tick : Event

-- The datagrams that go out, in order, and the server then.
unfoldable pub run : List Event → GameServer → List (List ℕ) × GameServer
run [] g = ([], g)
run (received commands ∷ events) g = run events (on_commands_from_network commands g)
run (tick ∷ events) g =
    let rest = run events (on_tick g).0 in (datagrams (on_tick g).1 ++ rest.0, rest.1)

-- The commands are of players other than 0 and within range, and what the ticks send fits its fields.
unfoldable pub InLimits : List Event → GameServer → Type 0
InLimits [] g = Unit
InLimits (received commands ∷ events) g =
    All Proper commands × InLimits events (on_commands_from_network commands g)
InLimits (tick ∷ events) g = FitsWire (edited_world g).0 × InLimits events (on_tick g).0

receive-append :
    (ds es : List (List ℕ)) (s : NetworkClient × WorldModel)
    → receive (ds ++ es) s ≡ receive es (receive ds s)
unfolding receive each
receive-append [] es s = refl
receive-append (d ∷ ds) es s = receive-append ds es (take_datagram d s)

pub on_tick-network : (g : GameServer) → g.has_network ≡ true → (on_tick g).0.has_network ≡ true
unfolding broadcast refresh_full_snapshot_cache
on_tick-network g on = rw (on_tick_lem g, on)

on_commands_same :
    (commands : List PlayerCommand) (g : GameServer)
    → ((on_commands_from_network commands g).world ≡ g.world)
      × ((on_commands_from_network commands g).has_network ≡ g.has_network)
unfolding on_commands_from_network
on_commands_same commands g =
    each_keep (λ (h : GameServer). (h.world ≡ g.world) × (h.has_network ≡ g.has_network)) commands _
      g (refl, refl) (λ cmd h k. k)

-- Whatever messages and ticks a server serves, and in whatever order: a client that had the owner of every
-- cell at the start and takes in all the datagrams, each once and in order, has the owner of every cell
-- at the end, and the world is sound at the end. The server has a network and a sound world at the
-- start, the commands, those that wait at the start as well, are of players other than 0 and within
-- range, and the coordinates and owners of each tick fit their fields.
pub run-Mirrors :
    (events : List Event) (g : GameServer) (c : NetworkClient) (w : WorldModel)
    → g.has_network ≡ true
    → All Proper g.command_queue
    → Sound g.world
    → InLimits events g
    → Mirrors w g.world
    → Mirrors (receive (run events g).0 (c, w)).1 (run events g).1.world
      × Sound (run events g).1.world
unfolding run InLimits
run-Mirrors [] g c w on proper s limits mirrors = (unfold receive each in mirrors, s)
run-Mirrors (received commands ∷ events) g c w on proper s limits mirrors =
    let (world, network) = on_commands_same commands g in
    run-Mirrors events (on_commands_from_network commands g) c w (network ∙ on)
      (rw (on_commands_lem commands g) (All-append Proper g.command_queue commands proper limits.0))
      (rw world s) limits.1 (rw world mirrors)
run-Mirrors (tick ∷ events) g c w on proper s limits mirrors =
    let (mirrors', s') = on_tick-Mirrors g c w on proper s limits.0 mirrors in
    let heard = receive (datagrams (on_tick g).1) (c, w) in
    let (end, sound) =
      run-Mirrors events (on_tick g).0 heard.0 heard.1 (on_tick-network g on)
        (rw (on_tick-edited g).1 tt) s' limits.1 mirrors' in
    (rw (receive-append (datagrams (on_tick g).1) (run events (on_tick g).0).0 (c, w)) end, sound)
