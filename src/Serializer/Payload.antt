-- ===== src/Serializer/Payload.antt =====
-- server/include/WorldSerializer.hpp: a payload as a list of packets, and how a chunk's entries are
-- shared out among them.
use multilife.Prelude.{
  ℕ, zero, suc, ◌≤◌, min, ◌≡◌, refl, sym, ◌∙◌, false, List, [], ◌∷◌, ◌++◌, map, length, take, drop,
  take-append-drop, length-take, length-drop, append_assoc, append-nil, All, arith, inl, inr,
  Bool-cases,
}
use multilife.Types.{ChunkCoord}
use multilife.Chunk.{Chunk, is_dirty}
use multilife.World.{ChunkMap}
use multilife.Serializer.{
  Entry, packet_bytes, append_packets, append_chunk, dirty_entry, live_entries,
  serialize_delta_from, serialize_delta, serialize_full_from, serialize_full,
}
use multilife.Wire.{max_cells_per_packet, flag_delta, flag_full}

pub record Packet : Type 0 where
  pub seq_num : ℕ
  pub flags : ℕ
  pub coord : ChunkCoord
  pub entries : List Entry

unfoldable pub encode : Packet → List ℕ
encode p = packet_bytes p.seq_num p.flags p.coord p.entries

unfoldable pub encode_all : List Packet → List ℕ
encode_all [] = []
encode_all (p ∷ ps) = encode p ++ encode_all ps

-- The entries in groups of 125.
unfoldable pub groups : ℕ → List Entry → List (List Entry)
groups zero es = []
groups (suc fuel) [] = []
groups (suc fuel) (e ∷ es) =
    let size = min max_cells_per_packet (length (e ∷ es)) in
    take size (e ∷ es) ∷ groups fuel (drop size (e ∷ es))

unfoldable pub concat : List (List Entry) → List Entry
concat [] = []
concat (g ∷ gs) = g ++ concat gs

unfoldable pub packets_of : ℕ → ℕ → ChunkCoord → List (List Entry) → List Packet
packets_of seq_num flags coord [] = []
packets_of seq_num flags coord (g ∷ gs) =
    record { seq_num = seq_num; flags = flags; coord = coord; entries = g }
    ∷ packets_of seq_num flags coord gs

-- The packets of one chunk.
abbrev pub chunk_packets : ℕ → ℕ → ChunkCoord → List Entry → List Packet
chunk_packets seq_num flags coord es = packets_of seq_num flags coord (groups (length es) es)

pub encode_all-append :
    (ps qs : List Packet) → encode_all (ps ++ qs) ≡ encode_all ps ++ encode_all qs
unfolding encode_all
encode_all-append [] qs = refl
encode_all-append (p ∷ ps) qs =
    rw (encode_all-append ps qs) (sym (append_assoc (encode p) (encode_all ps) (encode_all qs)))

append_packets-encode_all :
    (fuel : ℕ) (out : List ℕ) (seq_num flags : ℕ) (coord : ChunkCoord) (es : List Entry)
    → append_packets fuel out seq_num flags coord es
      ≡ out ++ encode_all (packets_of seq_num flags coord (groups fuel es))
unfolding append_packets encode_all packets_of groups encode
append_packets-encode_all zero out seq_num flags coord es = sym (append-nil out)
append_packets-encode_all (suc fuel) out seq_num flags coord [] = sym (append-nil out)
append_packets-encode_all (suc fuel) out seq_num flags coord (e ∷ es) =
    append_packets-encode_all fuel _ seq_num flags coord _ ∙ append_assoc out _ _

-- `appendChunk` appends the chunk's packets.
pub append_chunk-encode_all :
    (out : List ℕ) (seq_num flags : ℕ) (coord : ChunkCoord) (es : List Entry)
    → append_chunk out seq_num flags coord es
      ≡ out ++ encode_all (chunk_packets seq_num flags coord es)
unfolding append_chunk
append_chunk-encode_all out seq_num flags coord es =
    append_packets-encode_all (length es) out seq_num flags coord es

-- No entry is dropped, none is sent twice, and the order is kept.
pub concat-groups : (fuel : ℕ) (es : List Entry) → length es ≤ fuel → concat (groups fuel es) ≡ es
unfolding concat groups
concat-groups zero [] h = refl
concat-groups zero (e ∷ es) h = absurd (omega arith)
concat-groups (suc fuel) [] h = refl
concat-groups (suc fuel) (e ∷ es) h =
    let size = min max_cells_per_packet (length (e ∷ es)) in
    rw (concat-groups fuel (drop size (e ∷ es)) (omega (arith, length-drop size (e ∷ es))))
      (take-append-drop size (e ∷ es))

-- Each group has 1 to 125 entries.
abbrev pub GroupFits : List Entry → Type 0
GroupFits g = (1 ≤ length g) × (length g ≤ 125)

pub groups-GroupFits : (fuel : ℕ) (es : List Entry) → All GroupFits (groups fuel es)
unfolding groups
groups-GroupFits zero es = tt
groups-GroupFits (suc fuel) [] = tt
groups-GroupFits (suc fuel) (e ∷ es) =
    let size = min max_cells_per_packet (length (e ∷ es)) in
    (omega (arith, length-take size (e ∷ es)), groups-GroupFits fuel (drop size (e ∷ es)))

-- `appendChunk` writes one packet for each group of 1 to 125 entries; put together, the groups are the
-- entries: none is dropped, none is sent twice, and the order is kept.
pub append_chunk-groups :
    (out : List ℕ) (seq_num flags : ℕ) (coord : ChunkCoord) (es : List Entry)
    → (append_chunk out seq_num flags coord es
        ≡ out ++ encode_all (packets_of seq_num flags coord (groups (length es) es)))
      × (concat (groups (length es) es) ≡ es)
      × All GroupFits (groups (length es) es)
append_chunk-groups out seq_num flags coord es = (
  append_chunk-encode_all out seq_num flags coord es,
  concat-groups (length es) es (omega arith),
  groups-GroupFits (length es) es,
)

unfoldable pub delta_packets : ℕ → ChunkMap → List Packet
delta_packets seq_num [] = []
delta_packets seq_num ((coord, chunk) ∷ m) =
    chunk_packets seq_num flag_delta coord (map (dirty_entry chunk) chunk.dirty_cells)
    ++ delta_packets seq_num m

unfoldable pub full_packets : ℕ → ChunkMap → List Packet
full_packets seq_num [] = []
full_packets seq_num ((coord, chunk) ∷ m) =
    chunk_packets seq_num flag_full coord (live_entries chunk) ++ full_packets seq_num m

one_more :
    (out : List ℕ) (seq_num flags : ℕ) (coord : ChunkCoord) (es : List Entry) (ps : List Packet)
    → append_chunk out seq_num flags coord es ++ encode_all ps
      ≡ out ++ encode_all (chunk_packets seq_num flags coord es ++ ps)
one_more out seq_num flags coord es ps =
    rw
      (
        append_chunk-encode_all out seq_num flags coord es,
        encode_all-append (chunk_packets seq_num flags coord es) ps,
      )
      (append_assoc out (encode_all (chunk_packets seq_num flags coord es)) (encode_all ps))

serialize_full_from-encode_all :
    (seq_num : ℕ) (m : ChunkMap) (out : List ℕ)
    → serialize_full_from seq_num m out ≡ out ++ encode_all (full_packets seq_num m)
unfolding serialize_full_from full_packets encode_all
serialize_full_from-encode_all seq_num [] out = sym (append-nil out)
serialize_full_from-encode_all seq_num ((coord, chunk) ∷ m) out =
    serialize_full_from-encode_all seq_num m _
    ∙ one_more out seq_num flag_full coord (live_entries chunk) (full_packets seq_num m)

not_dirty : (c : Chunk) → is_dirty c ≡ false → c.dirty_cells ≡ []
unfolding is_dirty
not_dirty c e = ground arith

serialize_delta_from-encode_all :
    (seq_num : ℕ) (m : ChunkMap) (out : List ℕ)
    → (serialize_delta_from seq_num m out).0 ≡ out ++ encode_all (delta_packets seq_num m)
unfolding serialize_delta_from delta_packets encode_all packets_of groups
serialize_delta_from-encode_all seq_num [] out = sym (append-nil out)
serialize_delta_from-encode_all seq_num ((coord, chunk) ∷ m) out =
    elim (Bool-cases (is_dirty chunk)) [
      | inl dirty ↦ rw dirty (
          serialize_delta_from-encode_all seq_num m _
          ∙ one_more out seq_num flag_delta coord (map (dirty_entry chunk) chunk.dirty_cells)
              (delta_packets seq_num m))
      | inr clean ↦
          rw (clean, not_dirty chunk clean) (serialize_delta_from-encode_all seq_num m out)
    ]

-- The payload of a delta is the packets of the dirty cells of each chunk, in the map's order.
pub serialize_delta-encode_all :
    (seq_num : ℕ) (m : ChunkMap)
    → (serialize_delta seq_num m).0 ≡ encode_all (delta_packets seq_num m)
unfolding serialize_delta
serialize_delta-encode_all seq_num m = serialize_delta_from-encode_all seq_num m []

-- The payload of a snapshot is the packets of the live cells of each chunk.
pub serialize_full-encode_all :
    (seq_num : ℕ) (m : ChunkMap) → serialize_full seq_num m ≡ encode_all (full_packets seq_num m)
unfolding serialize_full
serialize_full-encode_all seq_num m = serialize_full_from-encode_all seq_num m []
