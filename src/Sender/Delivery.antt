-- ===== src/Sender/Delivery.antt =====
-- The payloads of server/include/WorldSerializer.hpp under the walks of
-- server/src/BoostNetworkManager.cpp and server/src/GameServer.cpp.
use multilife.Prelude.{
  ℕ, ◌≡◌, refl, ◌∙◌, ap, List, [], ◌∷◌, ◌++◌, map, length, some, All, All-append,
}
use multilife.Types.{ChunkCoord}
use multilife.World.{ChunkMap}
use multilife.Serializer.{Entry, serialize_delta, serialize_full, live_entries}
use multilife.Serializer.Payload.{
  Packet, encode, encode_all, groups, packets_of, chunk_packets, GroupFits, groups-GroupFits,
  delta_packets, full_packets, serialize_delta-encode_all, serialize_full-encode_all,
}
use multilife.Sender.{send_payload_to, rewrite_snapshot_seq_nums}
use multilife.Sender.Walk.{
  PacketFits, with_seq_num, send_payload_to-encode_all, rewrite_snapshot_seq_nums-encode_all,
}

packets_of-PacketFits :
    (seq_num flags : ℕ) (coord : ChunkCoord) (gs : List (List Entry))
    → All GroupFits gs
    → All PacketFits (packets_of seq_num flags coord gs)
unfolding packets_of
packets_of-PacketFits seq_num flags coord [] h = tt
packets_of-PacketFits seq_num flags coord (g ∷ gs) h =
    (h.0.1, packets_of-PacketFits seq_num flags coord gs h.1)

chunk_packets-PacketFits :
    (seq_num flags : ℕ) (coord : ChunkCoord) (es : List Entry)
    → All PacketFits (chunk_packets seq_num flags coord es)
chunk_packets-PacketFits seq_num flags coord es =
    packets_of-PacketFits seq_num flags coord (groups (length es) es)
      (groups-GroupFits (length es) es)

delta_packets-PacketFits : (seq_num : ℕ) (m : ChunkMap) → All PacketFits (delta_packets seq_num m)
unfolding delta_packets
delta_packets-PacketFits seq_num [] = tt
delta_packets-PacketFits seq_num ((coord, chunk) ∷ m) =
    All-append PacketFits _ (delta_packets seq_num m) (chunk_packets-PacketFits seq_num _ coord _)
      (delta_packets-PacketFits seq_num m)

pub full_packets-PacketFits : (seq_num : ℕ) (m : ChunkMap) → All PacketFits (full_packets seq_num m)
unfolding full_packets
full_packets-PacketFits seq_num [] = tt
full_packets-PacketFits seq_num ((coord, chunk) ∷ m) =
    All-append PacketFits _ (full_packets seq_num m) (chunk_packets-PacketFits seq_num _ coord _)
      (full_packets-PacketFits seq_num m)

-- For every world, the delta of a tick goes out as the packets of its dirty cells, one datagram for
-- each packet, and each with 125 cells at most.
pub send_payload_to-serialize_delta :
    (seq_num : ℕ) (m : ChunkMap)
    → (send_payload_to (serialize_delta seq_num m).0 ≡ some (map encode (delta_packets seq_num m)))
      × All PacketFits (delta_packets seq_num m)
send_payload_to-serialize_delta seq_num m =
    let fits = delta_packets-PacketFits seq_num m in
    (rw (serialize_delta-encode_all seq_num m) (send_payload_to-encode_all _ fits), fits)

map-packets_of :
    (n seq_num flags : ℕ) (coord : ChunkCoord) (gs : List (List Entry))
    → map (with_seq_num n) (packets_of seq_num flags coord gs) ≡ packets_of n flags coord gs
unfolding packets_of
map-packets_of n seq_num flags coord [] = refl
map-packets_of n seq_num flags coord (g ∷ gs) = rw (map-packets_of n seq_num flags coord gs)

map-append :
    (n : ℕ) (ps qs : List Packet)
    → map (with_seq_num n) (ps ++ qs) ≡ map (with_seq_num n) ps ++ map (with_seq_num n) qs
map-append n [] qs = refl
map-append n (p ∷ ps) qs = rw (map-append n ps qs)

map-full_packets :
    (n seq_num : ℕ) (m : ChunkMap)
    → map (with_seq_num n) (full_packets seq_num m) ≡ full_packets n m
unfolding full_packets
map-full_packets n seq_num [] = refl
map-full_packets n seq_num ((coord, chunk) ∷ m) =
    map-append n (chunk_packets seq_num _ coord (live_entries chunk)) (full_packets seq_num m)
    ∙ rw (
      map-packets_of n seq_num _ coord (groups (length (live_entries chunk)) (live_entries chunk)),
      map-full_packets n seq_num m,
    )

-- A snapshot with its sequence numbers rewritten is the snapshot that would have been written under the
-- new number, and the walk sends that one as its packets, one datagram for each.
pub rewrite_snapshot_seq_nums-serialize_full :
    (n seq_num : ℕ) (m : ChunkMap)
    → (rewrite_snapshot_seq_nums (serialize_full seq_num m) n ≡ serialize_full n m)
      × (send_payload_to (serialize_full n m) ≡ some (map encode (full_packets n m)))
rewrite_snapshot_seq_nums-serialize_full n seq_num m = (
  rw (serialize_full-encode_all seq_num m, serialize_full-encode_all n m)
      (rewrite_snapshot_seq_nums-encode_all _ n (full_packets-PacketFits seq_num m)
        ∙ ap encode_all (map-full_packets n seq_num m)),
  rw (serialize_full-encode_all n m) (send_payload_to-encode_all _ (full_packets-PacketFits n m)),
)
