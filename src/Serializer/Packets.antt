-- ===== src/Serializer/Packets.antt =====
-- One packet of server/include/WorldSerializer.hpp, as client/src/ClientParsers.cpp reads it.
use multilife.Prelude.{
  ℕ, ◌+◌, ◌*◌, ◌^◌, ◌<◌, ◌≡◌, refl, ◌∙◌, ap, not, ◌==◌, List, [], ◌∷◌, ◌++◌, map, some, length,
  get_or, length-append, append_assoc, drop, All, arith,
}
use multilife.Prelude.Int.{signed_of, IsInt32, signed-word32, word32-lt}
use multilife.Types.{ChunkCoord}
use multilife.Serializer.{Entry, entry_bytes, entries_bytes, header_bytes, packet_bytes}
use multilife.Wire.{read_le, write_le, length-write_le, read_le-write_le, drop-append, flag_full}
use multilife.Client.Parsers.{
  UdpCellUpdate, ParsedUdpWorldPacket, parse_cells, parse_udp_world_packet, read_int32,
}

-- An entry whose fields fit theirs.
abbrev pub EntryFits : Entry → Type 0
EntryFits e = e.owner < 2 ^ 64

-- What the client should make of an entry.
unfoldable pub update_of : Entry → UdpCellUpdate
update_of e = record { local_x = e.x; local_y = e.y; alive = not (e.alive == 0); owner = e.owner }

pub length-entries_bytes : (es : List Entry) → length (entries_bytes es) ≡ length es * 11
unfolding entries_bytes entry_bytes
length-entries_bytes [] = refl
length-entries_bytes (e ∷ es) = omega (
  arith,
  length-append {0} (write_le 8 e.owner) (entries_bytes es),
  length-write_le 8 e.owner,
  length-entries_bytes es,
)

pub parse_cells-entries_bytes :
    (es : List Entry) (rest : List ℕ)
    → All EntryFits es
    → parse_cells (length es) (entries_bytes es ++ rest) ≡ map update_of es
unfolding parse_cells entries_bytes entry_bytes update_of
parse_cells-entries_bytes [] rest h = refl
parse_cells-entries_bytes (e ∷ es) rest h = rw (
  append_assoc (write_le 8 e.owner) (entries_bytes es) rest,
  read_le-write_le 8 e.owner (entries_bytes es ++ rest) (omega (arith, h.0)),
  drop-append 8 (write_le 8 e.owner) (entries_bytes es ++ rest) (length-write_le 8 e.owner),
  parse_cells-entries_bytes es rest h.1,
)

pub record HeaderFits (seq_num flags : ℕ) (coord : ChunkCoord) : Type 0 where
  pub seq_num_fits : seq_num < 2 ^ 32
  pub x_fits : IsInt32 coord.x
  pub y_fits : IsInt32 coord.y

pub length-packet_bytes :
    (seq_num flags : ℕ) (coord : ChunkCoord) (es : List Entry)
    → length (packet_bytes seq_num flags coord es) ≡ 15 + length es * 11
unfolding packet_bytes header_bytes write_le
length-packet_bytes seq_num flags coord es = omega (arith, length-entries_bytes es)

module _ (seq_num flags : ℕ) (coord : ChunkCoord) (es : List Entry) (rest : List ℕ) where
  abbrev bytes : List ℕ
  bytes = packet_bytes seq_num flags coord es ++ rest

  pub count-packet_bytes : length es < 2 ^ 16 → read_le 2 (drop 13 bytes) ≡ length es
  unfolding packet_bytes header_bytes write_le read_le
  count-packet_bytes h = omega arith

  seq_num-packet_bytes : seq_num < 2 ^ 32 → read_le 4 (drop 0 bytes) ≡ seq_num
  unfolding packet_bytes header_bytes write_le read_le
  seq_num-packet_bytes h = omega arith

  chunk_x-packet_bytes : IsInt32 coord.x → read_int32 (drop 5 bytes) ≡ coord.x
  unfolding packet_bytes header_bytes write_le read_le
  chunk_x-packet_bytes h =
      ap (signed_of (2 ^ 32)) (omega (arith, word32-lt coord.x)) ∙ signed-word32 coord.x h

  chunk_y-packet_bytes : IsInt32 coord.y → read_int32 (drop 9 bytes) ≡ coord.y
  unfolding packet_bytes header_bytes write_le read_le
  chunk_y-packet_bytes h =
      ap (signed_of (2 ^ 32)) (omega (arith, word32-lt coord.y)) ∙ signed-word32 coord.y h

  flags-packet_bytes : get_or bytes 4 0 ≡ flags
  unfolding packet_bytes header_bytes write_le
  flags-packet_bytes = refl

  body-packet_bytes : drop 15 bytes ≡ entries_bytes es ++ rest
  unfolding packet_bytes header_bytes write_le
  body-packet_bytes = refl

  pub length-bytes : length bytes ≡ 15 + length es * 11 + length rest
  length-bytes =
      length-append (packet_bytes seq_num flags coord es) rest
      ∙ ap (λ (n : ℕ). n + length rest) (length-packet_bytes seq_num flags coord es)

  -- What the client should read out of the packet.
  abbrev pub packet_view : ParsedUdpWorldPacket
  packet_view = record {
    seq_num = seq_num;
    full_snapshot = flags == flag_full;
    chunk_x = coord.x;
    chunk_y = coord.y;
    cells = map update_of es;
  }

  -- If the sequence number and the coordinates fit 32 bits, the owners 64 bits and the number of entries
  -- 16 bits, the client reads every field and every cell of a packet back, whatever follows it.
  pub parse-packet_bytes :
      HeaderFits seq_num flags coord
      → length es < 2 ^ 16
      → All EntryFits es
      → parse_udp_world_packet bytes ≡ some packet_view
  unfolding parse_udp_world_packet
  parse-packet_bytes fits short entries =
      rw
        (
          count-packet_bytes short,
          seq_num-packet_bytes fits.seq_num_fits,
          chunk_x-packet_bytes fits.x_fits,
          chunk_y-packet_bytes fits.y_fits,
          flags-packet_bytes,
          body-packet_bytes,
          parse_cells-entries_bytes es rest entries,
        )
        (ground (arith, length-bytes))
