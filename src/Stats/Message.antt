-- ===== src/Stats/Message.antt =====
-- server/src/GameServer.cpp, `serializeServerStats`, as client/src/ClientParsers.cpp reads it from the
-- TCP stream.
use multilife.Prelude.{
  ℕ, ◌+◌, ◌*◌, ◌^◌, ◌<◌, ◌≡◌, refl, ◌∙◌, List, [], ◌∷◌, ◌++◌, map, length, length-append,
  length-take, drop, All, some, nat_eq, arith,
}
use multilife.Prelude.Map.{find}
use multilife.Chunk.{or_zero}
use multilife.Resources.{ResourceManager, get_balance, get_player_ids}
use multilife.Resources.Balances.{Fits}
use multilife.Wire.{write_le, read_le, read_le-write_le, drop-append}
use multilife.Stats.{stats_entries, sent_ids, sort, serialize_server_stats}
use multilife.Client.Parsers.{
  ServerStatsEntry, parse_players, parse_stats_at, try_parse_server_stats_message,
}

-- What the client should show of a player.
unfoldable pub entry_of : ResourceManager → List (ℕ × ℕ) → ℕ → ServerStatsEntry
entry_of r live_counts id = record {
  player_id = id;
  balance = get_balance r id;
  live_cells = or_zero (find id live_counts);
}

abbrev pub IdFits : ℕ → Type 0
IdFits id = id < 2 ^ 64

-- The counts are 64-bit numbers.
abbrev pub CountsFit : List (ℕ × ℕ) → Type 0
CountsFit counts = (p : ℕ) → or_zero (find p counts) < 2 ^ 64

drop_one : (a : ℕ) (rest : List ℕ) → drop 8 (write_le 8 a ++ rest) ≡ rest
unfolding write_le
drop_one a rest = refl

drop_two : (a b : ℕ) (rest : List ℕ) → drop 16 (write_le 8 a ++ (write_le 8 b ++ rest)) ≡ rest
unfolding write_le
drop_two a b rest = refl

drop_three :
    (a b c : ℕ) (rest : List ℕ)
    → drop 24 (write_le 8 a ++ (write_le 8 b ++ (write_le 8 c ++ rest))) ≡ rest
unfolding write_le
drop_three a b c rest = refl

append_three :
    (a b c : ℕ) (xs rest : List ℕ)
    → (write_le 8 a ++ (write_le 8 b ++ (write_le 8 c ++ xs))) ++ rest
      ≡ write_le 8 a ++ (write_le 8 b ++ (write_le 8 c ++ (xs ++ rest)))
unfolding write_le
append_three a b c xs rest = refl

read_field : (a : ℕ) (rest : List ℕ) → a < 2 ^ 64 → read_le 8 (write_le 8 a ++ rest) ≡ a
read_field a rest h = read_le-write_le 8 a rest (omega (arith, h))

parse_players-stats_entries :
    (r : ResourceManager) (counts : List (ℕ × ℕ)) (ids : List ℕ) (rest : List ℕ)
    → Fits r
    → CountsFit counts
    → All IdFits ids
    → parse_players (length ids) (stats_entries r counts ids ++ rest) ≡ map (entry_of r counts) ids
unfolding parse_players stats_entries entry_of
parse_players-stats_entries r counts [] rest f g h = refl
parse_players-stats_entries r counts (id ∷ ids) rest f g h =
    let b = get_balance r id in
    let c = or_zero (find id counts) in
    let tail = stats_entries r counts ids ++ rest in
    rw (
      append_three id b c (stats_entries r counts ids) rest,
      drop_one id (write_le 8 b ++ (write_le 8 c ++ tail)),
      drop_two id b (write_le 8 c ++ tail),
      drop_three id b c tail,
      read_field id (write_le 8 b ++ (write_le 8 c ++ tail)) h.0,
      read_field b (write_le 8 c ++ tail) (f id),
      read_field c tail (g id),
      parse_players-stats_entries r counts ids rest f g h.1,
    )

length-stats_entries :
    (r : ResourceManager) (counts : List (ℕ × ℕ)) (ids : List ℕ)
    → length (stats_entries r counts ids) ≡ length ids * 24
unfolding stats_entries write_le
length-stats_entries r counts [] = refl
length-stats_entries r counts (id ∷ ids) = omega (arith, length-stats_entries r counts ids)

length-sent_ids : (r : ResourceManager) → length (sent_ids r) < 2 ^ 16
unfolding sent_ids
length-sent_ids r = omega (arith, length-take 65535 (sort (get_player_ids r)))

module _ (generation : ℕ) (r : ResourceManager) (counts : List (ℕ × ℕ)) (rest : List ℕ) where
  abbrev message : List ℕ
  message = serialize_server_stats generation r counts ++ rest

  abbrev entries : List ℕ
  entries = stats_entries r counts (sent_ids r)

  count_field : read_le 2 (drop 5 message) ≡ length (sent_ids r)
  unfolding serialize_server_stats write_le read_le
  count_field = omega (arith, length-sent_ids r)

  generation_field : generation < 2 ^ 32 → read_le 4 (drop 1 message) ≡ generation
  unfolding serialize_server_stats write_le read_le
  generation_field h = omega arith

  body_field : drop 7 message ≡ entries ++ rest
  unfolding serialize_server_stats write_le
  body_field = refl

  length-message : length message ≡ 7 + length (sent_ids r) * 24 + length rest
  unfolding serialize_server_stats write_le
  length-message =
      omega (arith, length-append entries rest, length-stats_entries r counts (sent_ids r))

  length-serialize_server_stats :
      length (serialize_server_stats generation r counts) ≡ 7 + length (sent_ids r) * 24
  unfolding serialize_server_stats write_le
  length-serialize_server_stats = omega (arith, length-stats_entries r counts (sent_ids r))

  rest_field : drop (7 + length (sent_ids r) * 24) message ≡ rest
  rest_field =
      drop-append (7 + length (sent_ids r) * 24) (serialize_server_stats generation r counts) rest
        length-serialize_server_stats

  at_front : try_parse_server_stats_message message ≡ parse_stats_at message
  unfolding try_parse_server_stats_message serialize_server_stats
  at_front = ground (arith, length-message)

  -- If the generation, the ids, the balances and the counts fit their fields, the client reads the
  -- message back: the generation, and for each id that is sent its balance and its live cells, in the
  -- order sent; what follows the message stays in the buffer.
  pub parse-serialize_server_stats :
      generation < 2 ^ 32
      → Fits r
      → CountsFit counts
      → All IdFits (sent_ids r)
      → try_parse_server_stats_message message ≡ (
        some (record { generation = generation; players = map (entry_of r counts) (sent_ids r) }),
        rest,
      )
  unfolding parse_stats_at
  parse-serialize_server_stats h f g k =
      at_front
      ∙ rw
          (
            count_field,
            generation_field h,
            body_field,
            rest_field,
            parse_players-stats_entries r counts (sent_ids r) rest f g k,
          )
          (ground (arith, length-message))
