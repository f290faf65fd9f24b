-- ===== src/Mirror/Wired.antt =====
-- server/src/BoostNetworkManager.cpp and client/src/GameNetworkClient.cpp: the datagrams of a delta, as the
-- client takes them in.
use mathlib.Core.Path.{subst}
use multilife.Prelude.{
  ℕ, ◌≡◌, ◌<◌, ◌^◌, refl, sym, ◌∙◌, ap, Bool, true, false, if◌then◌else◌, inl, inr, List, [], ◌∷◌,
  ◌++◌, map, length, take, drop, min, zero, suc, ◌==◌, each, append-nil, All, In, some, arith,
}
use multilife.Prelude.Int.{ℤ, IsInt32}
use multilife.Prelude.Map.{find}
use multilife.Types.{ChunkCoord, chunk_coord_eq, CellState}
use multilife.Chunk.{Chunk, DirtyCell}
use multilife.World.{ChunkMap}
use multilife.World.Coordinates.{cell_at}
use multilife.Wire.{flag_delta, flag_full, max_cells_per_packet}
use multilife.Serializer.{Entry, dirty_entry}
use multilife.Serializer.Packets.{update_of, EntryFits, HeaderFits, parse-packet_bytes, packet_view}
use multilife.Serializer.Payload.{
  Packet, encode, packets_of, groups, GroupFits, groups-GroupFits, chunk_packets, delta_packets,
}
use multilife.Sender.Walk.{PacketFits}
use multilife.Client.Parsers.{ParsedUdpWorldPacket, parse_udp_world_packet}
use multilife.Client.Network.{
  NetworkClient, connected, apply_datagram, Effect, alive_cell, send_resync, is_gap,
}
use multilife.Client.WorldModel.{WorldModel, apply_update}
use multilife.Mirror.{HasOneEach, IsWithin, AllWithin, take_datagram, receive, update_model}
use multilife.Mirror.Updates.{told, apply_packet, apply_packets}
use multilife.Mirror.Truth.{cell_at-join, find-HasOneEach}

-- The fields of the packet fit theirs.
pub record Encodable (p : Packet) : Type 0 where
  pub header : HeaderFits p.seq_num p.flags p.coord
  pub entries : All EntryFits p.entries
  pub short : PacketFits p

parse-encode :
    (p : Packet)
    → Encodable p
    → parse_udp_world_packet (encode p) ≡ some (packet_view p.seq_num p.flags p.coord p.entries [])
unfolding encode
parse-encode p e =
    ap parse_udp_world_packet (sym (append-nil (encode p)))
    ∙ parse-packet_bytes p.seq_num p.flags p.coord p.entries [] e.header (omega (arith, e.short))
        e.entries

apply_datagram_lem :
    (d : List ℕ) (p : ParsedUdpWorldPacket) (c : NetworkClient)
    → parse_udp_world_packet d ≡ some p
    → (apply_datagram connected d c).1
      ≡ (if is_gap c.last_seq_num p then send_resync connected else [])
        ++ (Effect.world_update p.seq_num p.full_snapshot p.chunk_x p.chunk_y
              (map alive_cell p.cells)
            ∷ [])
unfolding apply_datagram
apply_datagram_lem d p c e = rw (e, apply_datagram)

-- A gap makes the client ask for a snapshot, and it takes the packet all the same.
model_after :
    (gap : Bool) (p : ParsedUdpWorldPacket) (w : WorldModel)
    → each
        ((if gap then send_resync connected else [])
          ++ (Effect.world_update p.seq_num p.full_snapshot p.chunk_x p.chunk_y
                (map alive_cell p.cells)
              ∷ []))
        update_model
        w
      ≡ apply_update p.seq_num p.full_snapshot p.chunk_x p.chunk_y (map alive_cell p.cells) w
unfolding each update_model send_resync
model_after true p w = refl
model_after false p w = refl

map-told : (es : List Entry) → map alive_cell (map update_of es) ≡ map told es
map-told [] = refl
map-told (e ∷ es) = rw (map-told es)

take_datagram-encode :
    (p : Packet) (c : NetworkClient) (w : WorldModel)
    → Encodable p
    → (take_datagram (encode p) (c, w)).1 ≡ apply_packet p w
unfolding take_datagram apply_packet
take_datagram-encode p c w e =
    let v = packet_view p.seq_num p.flags p.coord p.entries [] in
    ap (λ (es : List Effect). each es update_model w)
      (apply_datagram_lem (encode p) v c (parse-encode p e))
    ∙ (model_after (is_gap c.last_seq_num v) v w
        ∙ ap (λ us. apply_update p.seq_num (p.flags == flag_full) p.coord.x p.coord.y us w)
            (map-told p.entries))

pub receive-encode :
    (ps : List Packet) (c : NetworkClient) (w : WorldModel)
    → All Encodable ps
    → (receive (map encode ps) (c, w)).1 ≡ apply_packets ps w
unfolding receive apply_packets each
receive-encode [] c w h = refl
receive-encode (p ∷ ps) c w h =
    receive-encode ps _ _ h.1 ∙ ap (apply_packets ps) (take_datagram-encode p c w h.0)

-- Coordinates of chunks and owners of cells fit their fields.
pub record FitsWire (m : ChunkMap) : Type 0 where
  pub coordinates : (k : ChunkCoord) (c : Chunk) → find k m ≡ some c → IsInt32 k.x × IsInt32 k.y
  pub owners : (gx gy : ℤ) → (cell_at m gx gy).owner < 2 ^ 64

All-take : (n : ℕ) (es : List Entry) → All EntryFits es → All EntryFits (take n es)
All-take zero es h = tt
All-take (suc n) [] h = tt
All-take (suc n) (e ∷ es) h = (h.0, All-take n es h.1)

All-drop : (n : ℕ) (es : List Entry) → All EntryFits es → All EntryFits (drop n es)
All-drop zero es h = h
All-drop (suc n) [] h = tt
All-drop (suc n) (e ∷ es) h = All-drop n es h.1

pub groups-EntryFits :
    (fuel : ℕ) (es : List Entry) → All EntryFits es → All (All EntryFits) (groups fuel es)
unfolding groups
groups-EntryFits zero es h = tt
groups-EntryFits (suc fuel) [] h = tt
groups-EntryFits (suc fuel) (e ∷ es) h =
    let size = min max_cells_per_packet (length (e ∷ es)) in
    (All-take size (e ∷ es) h, groups-EntryFits fuel _ (All-drop size (e ∷ es) h))

pub packets_of-Encodable :
    (seq_num flags : ℕ) (k : ChunkCoord) (gs : List (List Entry))
    → HeaderFits seq_num flags k
    → All (All EntryFits) gs
    → All GroupFits gs
    → All Encodable (packets_of seq_num flags k gs)
unfolding packets_of
packets_of-Encodable seq_num flags k [] h es ss = tt
packets_of-Encodable seq_num flags k (g ∷ gs) h es ss = (
  record { header = h; entries = es.0; short = ss.0.1 },
  packets_of-Encodable seq_num flags k gs h es.1 ss.1,
)

dirty_entries-EntryFits :
    (m : ChunkMap) (k : ChunkCoord) (c : Chunk) (ds : List DirtyCell)
    → find k m ≡ some c
    → FitsWire m
    → All IsWithin ds
    → All EntryFits (map (dirty_entry c) ds)
unfolding dirty_entry
dirty_entries-EntryFits m k c [] here fits h = tt
dirty_entries-EntryFits m k c (d ∷ ds) here fits h = (
  subst (λ (s : CellState). s.owner < 2 ^ 64) (cell_at-join m k c here d.x d.y h.0)
      (fits.owners _ _),
  dirty_entries-EntryFits m k c ds here fits h.1,
)

pub Encodable-append :
    (ps qs : List Packet) → All Encodable ps → All Encodable qs → All Encodable (ps ++ qs)
Encodable-append [] qs h k = k
Encodable-append (p ∷ ps) qs h k = (h.0, Encodable-append ps qs h.1 k)

module _ (m : ChunkMap) (fits : FitsWire m) (within : AllWithin m) (seq_num : ℕ)
    (bound : seq_num < 2 ^ 32) where
  delta_packets-Encodable-part :
      (p : ChunkMap)
      → ((k : ChunkCoord) (c : Chunk) → In (k, c) p → find k m ≡ some c)
      → All Encodable (delta_packets seq_num p)
  unfolding delta_packets
  delta_packets-Encodable-part [] part = tt
  delta_packets-Encodable-part ((k, c) ∷ p) part =
      let here = part k c (inl refl) in
      let es = map (dirty_entry c) c.dirty_cells in
      let (hx, hy) = fits.coordinates k c here in
      Encodable-append (chunk_packets seq_num flag_delta k es) _
        (packets_of-Encodable seq_num flag_delta k (groups (length es) es)
          (record { seq_num_fits = bound; x_fits = hx; y_fits = hy })
          (groups-EntryFits (length es) es
            (dirty_entries-EntryFits m k c c.dirty_cells here fits (within k c here)))
          (groups-GroupFits (length es) es))
        (delta_packets-Encodable-part p (λ j d i. part j d (inr i)))

  pub delta_packets-Encodable : HasOneEach m → All Encodable (delta_packets seq_num m)
  delta_packets-Encodable one = delta_packets-Encodable-part m (λ k c. find-HasOneEach m k c one)
