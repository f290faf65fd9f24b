-- ===== src/Mirror.antt =====
-- server/src/GameServer.cpp with client/src/GameNetworkClient.cpp and client/src/WorldModel.cpp: the cells
-- of a client against the cells of the server, from one tick to the next.
pub mod Keys
pub mod Within
pub mod Marks
pub mod Updates
pub mod Truth
pub mod Wired
pub mod Tick
pub mod Run
pub mod Live
pub mod Full
pub mod Snapshot
pub mod Resync
use multilife.Prelude.{ℕ, ◌≡◌, Bool, List, [], ◌∷◌, ◌++◌, Option, none, some, All, In, each}
use multilife.Prelude.Int.{ℤ}
use multilife.Prelude.Map.{find}
use multilife.Types.{ChunkCoord, chunk_coord_eq}
use multilife.Chunk.{Chunk, DirtyCell, dirty_cell}
use multilife.Chunk.Cells.{Inside}
use multilife.World.{ChunkMap}
use multilife.World.Coordinates.{chunk_at, floor_mod, cell_at}
use multilife.Sender.{send_payload_to}
use multilife.GameServer.{Effect}
use multilife.Client.Network
use multilife.Client.Network.{NetworkClient, connected, apply_datagram}
use multilife.Client.WorldModel.{WorldModel, owner_at, apply_update}

-- The map has one entry for each key, as an `unordered_map` has.
unfoldable pub HasOneEach : ChunkMap → Type 0
HasOneEach [] = Unit
HasOneEach ((k, c) ∷ m) = (find k m ≡ none) × HasOneEach m

abbrev pub IsWithin : DirtyCell → Type 0
IsWithin d = Inside d.x d.y

-- The lists of dirty cells name cells of their tiles.
abbrev pub AllWithin : ChunkMap → Type 0
AllWithin m = (k : ChunkCoord) (c : Chunk) → find k m ≡ some c → All IsWithin c.dirty_cells

unfoldable pub IsListed : Option Chunk → ℕ → ℕ → Type 0
IsListed none x y = ⊥
IsListed (some c) x y = In (dirty_cell x y) c.dirty_cells

-- The cell of the grid is on the list of its chunk, to be sent.
abbrev pub IsMarked : ChunkMap → ℤ → ℤ → Type 0
IsMarked m gx gy = IsListed (find (chunk_at gx gy) m) (floor_mod gx) (floor_mod gy)

-- The client has the owner of every cell of the server's grid.
abbrev pub Mirrors : WorldModel → ChunkMap → Type 0
Mirrors w m = (gx gy : ℤ) → owner_at w gx gy ≡ (cell_at m gx gy).owner

-- The datagrams of the world updates among the effects of a tick.
abbrev pub or_empty : Option (List (List ℕ)) → List (List ℕ)
or_empty none = []
or_empty (some ds) = ds

unfoldable pub datagrams : List Effect → List (List ℕ)
datagrams [] = []
datagrams (Effect.world_update seq_num payload ∷ es) =
    or_empty (send_payload_to payload) ++ datagrams es
datagrams (Effect.network_started ∷ es) = datagrams es
datagrams (Effect.network_stopped ∷ es) = datagrams es
datagrams (Effect.scheduler_started ∷ es) = datagrams es
datagrams (Effect.scheduler_stopped ∷ es) = datagrams es
datagrams (Effect.server_stats payload ∷ es) = datagrams es

-- The window's handler of `worldUpdateReceived`, on the model.
unfoldable pub update_model : Network.Effect → WorldModel → WorldModel
update_model (Network.Effect.world_update n full x y cells) w = apply_update n full x y cells w
update_model Network.Effect.udp_close w = w
update_model Network.Effect.tcp_abort w = w
update_model Network.Effect.tcp_disconnect w = w
update_model (Network.Effect.tcp_connect h p) w = w
update_model (Network.Effect.tcp_write bytes) w = w
update_model (Network.Effect.state_changed b) w = w
update_model (Network.Effect.stats_updated n ps) w = w

-- A datagram that arrives, and then the signals that it leads to.
unfoldable pub take_datagram : List ℕ → NetworkClient × WorldModel → NetworkClient × WorldModel
take_datagram datagram (c, w) =
    let (c', es) = apply_datagram connected datagram c in (c', each es update_model w)

unfoldable pub receive : List (List ℕ) → NetworkClient × WorldModel → NetworkClient × WorldModel
receive ds s = each ds take_datagram s
