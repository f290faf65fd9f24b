-- ===== src/Lib.antt =====
-- Multilife: Conway's game of life for many players on an infinite grid, a server that simulates and
-- clients that show and edit.
--
-- The parts and how they interact. The server's `World` keeps square chunks of 64 times 64 cells, each
-- with two buffers and a border of ghost cells. A tick (`GameServer::onTick`) drains the queue of
-- commands, makes the chunks that cells could grow into, copies borders, lets each chunk compute its
-- next generation, applies the commands, which cost or pay players through `ResourceManager`, pays each
-- player for the live cells, and sends the cells that changed as UDP packets and the statistics over
-- TCP. A new client, or one that misses a packet, gets a full snapshot from a cache. `TickScheduler` is the
-- thread that calls the tick. The client parses packets and keeps the cells that are alive; its window
-- checks edits, sends them at once or keeps them pending, and reaches the network's thread through the
-- queues of `ClientRuntime`.
--
-- The files and the code:
--   Prelude      numbers, lists, loops, integers and maps that all parts use
--   Types        server/include/Types.hpp, server/include/PlayerCommand.hpp
--   Chunk        server/include/Chunk.hpp, server/src/Chunk.cpp
--   Resources    server/src/ResourceManager.cpp
--   World        server/src/World.cpp
--   Wire         server/include/Protocol.hpp and the little-endian integers of both sides
--   Serializer   server/include/WorldSerializer.hpp
--   Sender       `sendPayloadTo` and `rewriteSnapshotSeqNums`
--   Stats        `serializeServerStats`
--   Sessions     server/src/BoostNetworkManager.cpp, its sockets in Sessions/Listener
--   Threads      server/include/ThreadSafeQueue.hpp, server/src/ThreadPool.cpp (Threads/Pool) and
--                server/src/TickScheduler.cpp (Threads/Scheduler)
--   Client       client/src/ClientParsers.cpp, client/src/WorldModel.cpp, client/src/GameNetworkClient.cpp
--                (Client/Network), client/src/ClientRuntime.cpp (Client/Runtime), and
--                client/src/GameWindow.cpp (Client/Window, and its panels in Client/Panels), and the logic of
--                client/src/InfiniteGridView.cpp (Client/Grid)
--   GameServer   server/src/GameServer.cpp
--   Mirror       the server and a client together: Mirror/Marks (changed cells are marked), Mirror/Truth (a
--                delta tells the truth), Mirror/Wired (its datagrams), Mirror/Tick, Mirror/Run, and for
--                snapshots Mirror/Live, Mirror/Full, Mirror/Snapshot and Mirror/Resync
--   ServerMain   server/src/main.cpp: the whole server while it runs, as a list of events (ServerMain/Run): accepts,
--                bytes that clients write, reads that complete or fail, posted work and ticks. ServerMain/Completes,
--                ServerMain/Frame and ServerMain/Posted say what an event leaves alone, ServerMain/Registry
--                and ServerMain/Handlers what it does to the players, ServerMain/Commands what comes of a
--                stream; ServerMain/Soundness, Sending, Introductions (with Snapshots), Players,
--                Streams, Reads and Loop are what holds in every state
--   Examples     the theorems at small inputs
-- A function keeps its name in snake case, with the object as an argument and as a result. A buffer is
-- a function from indices to cells, an `unordered_map` is an association list in any order, and a
-- signal, a socket or a timer is an effect that is returned, and what a thread does is a step relation. An
-- integer of w bits is a natural number with `% 2 ^ w` where the code can wrap, or an integer within
-- its range.
--
-- Fuel. The walks over a payload and the loop over a chunk's entries take the length as fuel, and each
-- round takes at least one byte or entry, so the length is enough. The loop that drains the queue takes
-- its length. A session's reader and the client's reader of statistics take one
-- round more than there are bytes.
--
-- Not modelled: Boost.Asio and Qt, whose calls become effects or arguments; the interleaving of the
-- threads within one method, which the mutexes exclude for most; a tick and a handler of the sockets are one
-- step each, so a player who joins in the middle of a tick joins before it or after it; the layout and the texts of the client's widgets,
-- and the drawing and the small map of its view of the grid, in floating-point coordinates; the zoom is
-- defined over an arithmetic that is a parameter, of which nothing is assumed; the text of debug
-- output, of which World/Debug has the numbers. Sums of chunk coordinates, which are undefined where they leave an
-- `int`, have no bounds in the model; World/Range says when none leaves it. The scheduler's clock is a number that grows, and a sleep ends at some time after it is due.
pub mod Prelude
pub mod Types
pub mod Chunk
pub mod Resources
pub mod World
pub mod Wire
pub mod Serializer
pub mod Sender
pub mod Stats
pub mod Sessions
pub mod Threads
pub mod Client
pub mod GameServer
pub mod Mirror
pub mod ServerMain
pub mod Examples
