-- ===== src/Sender.antt =====
-- server/src/BoostNetworkManager.cpp, `sendPayloadTo`, and server/src/GameServer.cpp,
-- `rewriteSnapshotSeqNums`: the two walks over a payload of packets. A socket is where the datagrams
-- go; here they are returned in order. `Boost.Asio` itself is not modelled.
pub mod Walk
pub mod Delivery
use multilife.Prelude.{
  ℕ, zero, suc, ◌+◌, ◌*◌, ◌^◌, ltb, leb, if◌then◌else◌, List, [], ◌∷◌, ◌++◌, Option, none, some,
  length, take, drop,
}
use multilife.Wire.{
  read_le, write_le, udp_header, udp_cell_entry, max_udp_payload, max_cells_per_packet,
  off_cell_count, off_seq_num,
}

-- The size of the packet at the front, by its header.
abbrev pub packet_size : List ℕ → ℕ
packet_size payload = udp_header + read_le 2 (drop off_cell_count payload) * udp_cell_entry

-- The datagram for the packet at the front: a packet over the limit is cut, and its count rewritten.
unfoldable pub datagram_of : List ℕ → List ℕ
datagram_of payload =
    if ltb max_udp_payload (packet_size payload)
    then take off_cell_count payload
      ++ (write_le 2 max_cells_per_packet
          ++ take (max_cells_per_packet * udp_cell_entry) (drop udp_header payload))
    else take (packet_size payload) payload

abbrev pub prepend : List ℕ → Option (List (List ℕ)) → Option (List (List ℕ))
prepend d none = none
prepend d (some ds) = some (d ∷ ds)

-- The loop. `none` stands for a header that announces more than is left of the payload: the code does
-- not test for that, and its pointer leaves the payload.
-- A round takes 15 bytes at least, so the payload's length is fuel enough.
unfoldable pub send_loop : ℕ → List ℕ → Option (List (List ℕ))
send_loop zero payload = some []
send_loop (suc fuel) payload =
    let rest = send_loop fuel (drop (packet_size payload) payload) in
    if ltb (length payload) udp_header
    then some []
    else (if ltb (length payload) (packet_size payload)
        then none
        else prepend (datagram_of payload) rest)

unfoldable pub send_payload_to : List ℕ → Option (List (List ℕ))
send_payload_to payload = send_loop (length payload) payload

-- The loop of `rewriteSnapshotSeqNums`, on what is left of the payload.
unfoldable pub rewrite_loop : ℕ → List ℕ → ℕ → List ℕ
rewrite_loop zero payload seq_num = payload
rewrite_loop (suc fuel) payload seq_num =
    let rest = rewrite_loop fuel (drop (packet_size payload) payload) seq_num in
    if ltb (length payload) udp_header
    then payload
    else (if ltb (length payload) (packet_size payload)
        then payload
        else write_le 4 seq_num ++ (drop 4 (take (packet_size payload) payload) ++ rest))

unfoldable pub rewrite_snapshot_seq_nums : List ℕ → ℕ → List ℕ
rewrite_snapshot_seq_nums payload seq_num = rewrite_loop (length payload) payload seq_num
