-- ===== src/Examples/Protocol.antt =====
-- The theorems on the payloads and the walks over them, at small packets.
use multilife.Prelude.{
  ◌≡◌, List, [], ◌∷◌, ◌++◌, map, All, some, arith, none, nat_eq, ◌&&◌, if◌then◌else◌, true,
}
use multilife.Serializer.{Entry, packet_bytes, serialize_delta}
use multilife.Serializer.Packets.{packet_view, parse-packet_bytes}
use multilife.Serializer.Payload.{Packet, encode, encode_all, delta_packets}
use multilife.Sender.{send_payload_to, rewrite_snapshot_seq_nums}
use multilife.Sender.Walk.{PacketFits, with_seq_num, rewrite_snapshot_seq_nums-encode_all}
use multilife.Sender.Delivery.{send_payload_to-serialize_delta}
use multilife.Client.Parsers.{parse_udp_world_packet, try_parse_server_stats_message}
use multilife.Prelude.Int.{pos, negsuc}
use multilife.Prelude.Map.{find}
use multilife.Types.{place_cell}
use multilife.Client.Network.{handshake_bytes}
use multilife.Sessions.{NetworkManager, run_session}
use multilife.Sessions.Stream.{
  Message, command, resync, MessageFits, stream_bytes, delivered, run_session-stream_bytes,
}
use multilife.Stats.{serialize_server_stats, sent_ids, sort, sort_insert}
use multilife.Stats.Message.{CountsFit, IdFits, entry_of, parse-serialize_server_stats}
use multilife.Resources.{get_player_ids}
use multilife.Client.WorldModel.{WorldModel, owner_at, apply_update}
use multilife.Client.WorldModel.Updates.{last_owner, owner_at-apply_update}
use multilife.Types.{coord_eq}
use multilife.World.Coordinates.{chunk_at}
use multilife.Examples.{two_players, two_players-Fits, origin, small_world}

abbrev two_entries : List Entry
two_entries =
    record { x = 3; y = 63; alive = 1; owner = 7 }
    ∷ record { x = 0; y = 5; alive = 0; owner = 0 }
    ∷ []

abbrev two_packets : List Packet
two_packets =
    record { seq_num = 5; flags = 1; coord = origin; entries = two_entries }
    ∷ record { seq_num = 5; flags = 1; coord = origin; entries = [] }
    ∷ []

parse-packet_bytes_example :
    parse_udp_world_packet (packet_bytes 5 1 origin two_entries ++ (9 ∷ []))
    ≡ some (packet_view 5 1 origin two_entries (9 ∷ []))
parse-packet_bytes_example =
    parse-packet_bytes 5 1 origin two_entries (9 ∷ [])
      (record { seq_num_fits = omega arith; x_fits = ground arith; y_fits = ground arith })
      (omega arith) (omega arith, (omega arith, tt))

rewrite_snapshot_seq_nums-encode_all_example :
    rewrite_snapshot_seq_nums (encode_all two_packets) 6
    ≡ encode_all (map (with_seq_num 6) two_packets)
rewrite_snapshot_seq_nums-encode_all_example =
    rewrite_snapshot_seq_nums-encode_all two_packets 6 (omega arith, (omega arith, tt))

send_payload_to-serialize_delta_example :
    (send_payload_to (serialize_delta 42 small_world).0
      ≡ some (map encode (delta_packets 42 small_world)))
    × All PacketFits (delta_packets 42 small_world)
send_payload_to-serialize_delta_example = send_payload_to-serialize_delta 42 small_world

abbrev messages : List Message
messages =
    command (record { player_id = 7; type = place_cell; x = negsuc 4; y = pos 9 })
    ∷ resync
    ∷ command (record { player_id = 8; type = place_cell; x = pos 1; y = pos 1 })
    ∷ []

abbrev pub no_sessions : NetworkManager
no_sessions = record { sessions = []; udp_endpoints = []; seq_num = 0 }

messages-MessageFits : All MessageFits messages
unfolding MessageFits
messages-MessageFits = (ground arith, (tt, (ground arith, tt)))

run_session-stream_bytes_example :
    ((run_session (handshake_bytes 7 ++ stream_bytes messages) 1 no_sessions).0 ≡ 7 ∷ [])
    × ((run_session (handshake_bytes 7 ++ stream_bytes messages) 1 no_sessions).1.0
        ≡ delivered 7 messages)
    × (find 7 (run_session (handshake_bytes 7 ++ stream_bytes messages) 1 no_sessions).1.1.sessions
        ≡ none)
run_session-stream_bytes_example =
    run_session-stream_bytes 7 1 messages no_sessions (omega arith) messages-MessageFits

two_counts-CountsFit : CountsFit ((8, 2) ∷ [])
unfolding find
two_counts-CountsFit p = ground arith

two_players-IdFits : All IdFits (sent_ids two_players)
unfolding sent_ids sort sort_insert get_player_ids
two_players-IdFits = (omega arith, (omega arith, tt))

parse-serialize_server_stats_example :
    try_parse_server_stats_message
      (serialize_server_stats 42 two_players ((8, 2) ∷ []) ++ (32 ∷ []))
    ≡ (
      some (record {
        generation = 42;
        players = map (entry_of two_players ((8, 2) ∷ [])) (sent_ids two_players);
      }),
      32 ∷ [],
    )
parse-serialize_server_stats_example =
    parse-serialize_server_stats 42 two_players ((8, 2) ∷ []) (32 ∷ []) (omega arith)
      two_players-Fits two_counts-CountsFit two_players-IdFits

abbrev client_world : WorldModel
client_world = record { alive_cells = (record { x = pos 70; y = pos 3 }, 7) ∷ []; generation = 4 }

owner_at-apply_update_example :
    owner_at (apply_update 5 true (pos 1) (pos 0) [] client_world) (pos 70) (pos 3)
    ≡ last_owner (pos 1) (pos 0) [] (pos 70) (pos 3) (
        if true && coord_eq (chunk_at (pos 70) (pos 3)) (record { x = pos 1; y = pos 0 })
        then 0
        else owner_at client_world (pos 70) (pos 3))
owner_at-apply_update_example =
    owner_at-apply_update 5 true (record { x = pos 1; y = pos 0 }) [] client_world (pos 70) (pos 3)
