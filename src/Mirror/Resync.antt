-- ===== src/Mirror/Resync.antt =====
-- server/src/GameServer.cpp, `getFullSnapshotForSeq`, and the client's end of it: what a client has after a
-- snapshot.
use mathlib.Core.Path.{subst}
use multilife.Prelude.{
  ℕ, ◌≡◌, ◌<◌, ◌^◌, refl, sym, ◌∙◌, ap, inl, inr, List, [], ◌∷◌, length, All, In, some,
}
use multilife.Prelude.Map.{find}
use multilife.Types.{ChunkCoord, CellState, chunk_coord_eq}
use multilife.Chunk.{Chunk}
use multilife.World.{ChunkMap}
use multilife.Wire.{flag_full}
use multilife.Serializer.{Entry, live_entries, serialize_full}
use multilife.Serializer.Packets.{EntryFits}
use multilife.Serializer.Payload.{groups, groups-GroupFits, chunk_packets, full_packets}
use multilife.Sender.{send_payload_to}
use multilife.Sender.Delivery.{rewrite_snapshot_seq_nums-serialize_full}
use multilife.Client.Network.{NetworkClient}
use multilife.Client.WorldModel.{WorldModel, owner_at}
use multilife.GameServer.{GameServer, get_full_snapshot_for_seq}
use multilife.Mirror.{Mirrors, receive, or_empty}
use multilife.Mirror.Live.{IsLive, live_entries-IsLive}
use multilife.Mirror.Truth.{cell_at-join, find-HasOneEach}
use multilife.Mirror.Wired.{
  Encodable, FitsWire, receive-encode, packets_of-Encodable, groups-EntryFits, Encodable-append,
}
use multilife.Mirror.Snapshot.{AllSmall, HasNothingStale, entries_of-IsRight}
use multilife.Mirror.Tick.{Sound}

live_entries-EntryFits :
    (m : ChunkMap) (k : ChunkCoord) (c : Chunk) (es : List Entry)
    → find k m ≡ some c
    → FitsWire m
    → All (IsLive c) es
    → All EntryFits es
live_entries-EntryFits m k c [] here fits h = tt
live_entries-EntryFits m k c (e ∷ es) here fits h = (
  subst (λ (n : ℕ). n < 2 ^ 64)
      (ap (λ (s : CellState). s.owner) (cell_at-join m k c here e.x e.y h.0.inside)
        ∙ ap (λ (d : Entry). d.owner) (sym h.0.entry))
      (fits.owners _ _),
  live_entries-EntryFits m k c es here fits h.1,
)

module _ (m : ChunkMap) (fits : FitsWire m) (n : ℕ) (bound : n < 2 ^ 32) where
  full_packets-Encodable :
      (p : ChunkMap)
      → ((k : ChunkCoord) (c : Chunk) → In (k, c) p → find k m ≡ some c)
      → All Encodable (full_packets n p)
  unfolding full_packets
  full_packets-Encodable [] part = tt
  full_packets-Encodable ((k, c) ∷ p) part =
      let here = part k c (inl refl) in
      let es = live_entries c in
      let (hx, hy) = fits.coordinates k c here in
      Encodable-append (chunk_packets n flag_full k es) _
        (packets_of-Encodable n flag_full k (groups (length es) es)
          (record { seq_num_fits = bound; x_fits = hx; y_fits = hy })
          (groups-EntryFits (length es) es
            (live_entries-EntryFits m k c es here fits (live_entries-IsLive c)))
          (groups-GroupFits (length es) es))
        (full_packets-Encodable p (λ j d i. part j d (inr i)))

-- A client that takes in the datagrams of a snapshot has the owner of every cell of the grid, if the
-- snapshot's cache is up to date and the world is sound, if no chunk has more than 125 live cells, so
-- that each is one packet, and if the client had no owner in a chunk without live cells, of which a
-- snapshot says nothing. What it had in the other chunks does not matter. Sequence number, coordinates
-- and owners have to fit their fields.
pub snapshot-Mirrors :
    (g : GameServer) (n : ℕ) (c : NetworkClient) (w : WorldModel)
    → g.cached_full_snapshot ≡ serialize_full 0 g.world
    → n < 2 ^ 32
    → Sound g.world
    → FitsWire g.world
    → AllSmall g.world
    → HasNothingStale w g.world
    → Mirrors
        (receive (or_empty (send_payload_to (get_full_snapshot_for_seq g n))) (c, w)).1
        g.world
unfolding get_full_snapshot_for_seq
snapshot-Mirrors g n c w cached bound s fits small blank gx gy =
    let (rewritten, sent) = rewrite_snapshot_seq_nums-serialize_full n 0 g.world in
    rw (cached, rewritten, sent)
      (ap (λ v. owner_at v gx gy)
          (receive-encode (full_packets n g.world) c w (
            full_packets-Encodable g.world fits n bound g.world
              (λ k d. find-HasOneEach g.world k d s.one_each)))
        ∙ entries_of-IsRight g.world s.owned small n gx gy _ _ w s.one_each refl refl (blank gx gy))
