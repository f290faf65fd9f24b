-- ===== src/Sender/Walk.antt =====
-- The two walks over a payload: they find the packets that the serializer wrote.
use multilife.Prelude.{
  ℕ, zero, suc, ◌+◌, ◌*◌, ◌≤◌, ◌≡◌, refl, sym, ◌∙◌, ap, List, [], ◌∷◌, ◌++◌, map, some, length,
  append_assoc, take, drop, All, arith,
}
use multilife.Serializer.{packet_bytes, header_bytes}
use multilife.Serializer.Packets.{count-packet_bytes, length-packet_bytes, length-bytes}
use multilife.Serializer.Payload.{Packet, encode, encode_all}
use multilife.Wire.{write_le, take-append, drop-append}
use multilife.Sender.{
  packet_size, datagram_of, send_loop, send_payload_to, rewrite_loop, rewrite_snapshot_seq_nums,
}

abbrev pub with_seq_num : ℕ → Packet → Packet
with_seq_num seq_num p = record p { seq_num = seq_num }

-- A packet within the limit on datagrams.
abbrev pub PacketFits : Packet → Type 0
PacketFits p = length p.entries ≤ 125

module _ (p : Packet) (rest : List ℕ) (fits : PacketFits p) where
  packet_size-encode : packet_size (encode p ++ rest) ≡ 15 + length p.entries * 11
  unfolding encode
  packet_size-encode =
      ap (λ (n : ℕ). 15 + n * 11)
        (count-packet_bytes p.seq_num p.flags p.coord p.entries rest (omega arith))

  length-encode : length (encode p) ≡ 15 + length p.entries * 11
  unfolding encode
  length-encode = length-packet_bytes p.seq_num p.flags p.coord p.entries

  length-encode_rest : length (encode p ++ rest) ≡ 15 + length p.entries * 11 + length rest
  unfolding encode
  length-encode_rest = length-bytes p.seq_num p.flags p.coord p.entries rest

  drop-encode : drop (packet_size (encode p ++ rest)) (encode p ++ rest) ≡ rest
  drop-encode = rw packet_size-encode (drop-append _ (encode p) rest length-encode)

  take-encode : take (packet_size (encode p ++ rest)) (encode p ++ rest) ≡ encode p
  take-encode = rw packet_size-encode (take-append _ (encode p) rest length-encode)

  datagram_of-encode : datagram_of (encode p ++ rest) ≡ encode p
  unfolding datagram_of
  datagram_of-encode = ground (arith, packet_size-encode, take-encode)

  send_step :
      (fuel : ℕ) (ds : List (List ℕ))
      → send_loop fuel rest ≡ some ds
      → send_loop (suc fuel) (encode p ++ rest) ≡ some (encode p ∷ ds)
  unfolding send_loop
  send_step fuel ds e =
      rw (drop-encode, datagram_of-encode, e)
        (ground (arith, length-encode_rest, packet_size-encode))

-- The walk sends each packet as one datagram, unchanged, and never reads past the payload.
send_loop-encode_all :
    (fuel : ℕ) (ps : List Packet)
    → All PacketFits ps
    → length (encode_all ps) ≤ fuel
    → send_loop fuel (encode_all ps) ≡ some (map encode ps)
unfolding encode_all
send_loop-encode_all zero [] h enough = unfold send_loop in refl
send_loop-encode_all (suc fuel) [] h enough = unfold send_loop in refl
send_loop-encode_all zero (p ∷ ps) h enough =
    absurd (omega (arith, length-encode_rest p (encode_all ps) h.0))
send_loop-encode_all (suc fuel) (p ∷ ps) h enough =
    send_step p (encode_all ps) h.0 fuel (map encode ps)
      (send_loop-encode_all fuel ps h.1 (omega (arith, length-encode_rest p (encode_all ps) h.0)))

-- On a payload of packets of at most 125 cells `sendPayloadTo` sends each packet as one datagram,
-- unchanged and in order, and does not read beyond the payload.
pub send_payload_to-encode_all :
    (ps : List Packet) → All PacketFits ps → send_payload_to (encode_all ps) ≡ some (map encode ps)
unfolding send_payload_to
send_payload_to-encode_all ps h = send_loop-encode_all (length (encode_all ps)) ps h (omega arith)

renumber-encode :
    (p : Packet) (seq_num : ℕ)
    → write_le 4 seq_num ++ drop 4 (encode p) ≡ encode (with_seq_num seq_num p)
unfolding encode packet_bytes header_bytes write_le
renumber-encode p seq_num = refl

rewrite_step :
    (p : Packet) (rest : List ℕ) (fuel seq_num : ℕ)
    → PacketFits p
    → rewrite_loop (suc fuel) (encode p ++ rest) seq_num
      ≡ encode (with_seq_num seq_num p) ++ rewrite_loop fuel rest seq_num
unfolding rewrite_loop
rewrite_step p rest fuel seq_num h =
    rw
      (
        take-encode p rest h,
        drop-encode p rest h,
        sym (renumber-encode p seq_num),
        append_assoc (write_le 4 seq_num) (drop 4 (encode p)) (rewrite_loop fuel rest seq_num),
      )
      (ground (arith, length-encode_rest p rest h, packet_size-encode p rest h))

rewrite_loop-encode_all :
    (fuel : ℕ) (ps : List Packet) (seq_num : ℕ)
    → All PacketFits ps
    → length (encode_all ps) ≤ fuel
    → rewrite_loop fuel (encode_all ps) seq_num ≡ encode_all (map (with_seq_num seq_num) ps)
unfolding encode_all
rewrite_loop-encode_all zero [] seq_num h enough = unfold rewrite_loop in refl
rewrite_loop-encode_all (suc fuel) [] seq_num h enough = unfold rewrite_loop in refl
rewrite_loop-encode_all zero (p ∷ ps) seq_num h enough =
    absurd (omega (arith, length-encode_rest p (encode_all ps) h.0))
rewrite_loop-encode_all (suc fuel) (p ∷ ps) seq_num h enough =
    rewrite_step p (encode_all ps) fuel seq_num h.0
    ∙ rw (
        rewrite_loop-encode_all fuel ps seq_num h.1
          (omega (arith, length-encode_rest p (encode_all ps) h.0)))

-- `rewriteSnapshotSeqNums` gives every packet of a payload the sequence number, and changes nothing
-- else.
pub rewrite_snapshot_seq_nums-encode_all :
    (ps : List Packet) (seq_num : ℕ)
    → All PacketFits ps
    → rewrite_snapshot_seq_nums (encode_all ps) seq_num ≡ encode_all (map (with_seq_num seq_num) ps)
unfolding rewrite_snapshot_seq_nums
rewrite_snapshot_seq_nums-encode_all ps seq_num h =
    rewrite_loop-encode_all (length (encode_all ps)) ps seq_num h (omega arith)
