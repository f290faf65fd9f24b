-- ===== src/Client/Parsers/Stream.antt =====
-- client/src/ClientParsers.cpp, `tryParseServerStatsMessage`: a buffer, and the same buffer with more bytes.
use multilife.Prelude.{
  ℕ, zero, suc, ◌+◌, ◌*◌, ◌≤◌, ◌<◌, ◌≡◌, refl, ◌∙◌, true, false, ltb, ◌==◌, inl, inr, Bool-cases,
  List, [], ◌∷◌, ◌++◌, length, drop, length-append, length-drop, Option, none, some, arith, nat_eq,
}
use multilife.Wire.{read_le, msg_server_stats}
use multilife.Client.Parsers.{
  ParsedServerStatsMessage, parse_players, parse_stats_at, try_parse_server_stats_message,
}

read_le-append : (n : ℕ) (b x : List ℕ) → n ≤ length b → read_le n (b ++ x) ≡ read_le n b
unfolding read_le
read_le-append zero b x h = refl
read_le-append (suc n) [] x h = absurd (omega arith)
read_le-append (suc n) (a ∷ b) x h = rw (read_le-append n b x (omega arith))

drop-short : (k : ℕ) (b x : List ℕ) → k ≤ length b → drop k (b ++ x) ≡ drop k b ++ x
drop-short zero b x h = refl
drop-short (suc k) [] x h = absurd (omega arith)
drop-short (suc k) (a ∷ b) x h = drop-short k b x (omega arith)

parse_players-append :
    (n : ℕ) (b x : List ℕ) → n * 24 ≤ length b → parse_players n (b ++ x) ≡ parse_players n b
unfolding parse_players
parse_players-append zero b x h = refl
parse_players-append (suc n) b x h = rw (
  read_le-append 8 b x (omega (arith, h)),
  drop-short 8 b x (omega (arith, h)),
  drop-short 16 b x (omega (arith, h)),
  drop-short 24 b x (omega (arith, h)),
  read_le-append 8 (drop 8 b) x (omega (arith, h, length-drop 8 b)),
  read_le-append 8 (drop 16 b) x (omega (arith, h, length-drop 16 b)),
  parse_players-append n (drop 24 b) x (omega (arith, h, length-drop 24 b)),
)

abbrev player_count : List ℕ → ℕ
player_count b = read_le 2 (drop 5 b)

player_count-append : (b x : List ℕ) → 7 ≤ length b → player_count (b ++ x) ≡ player_count b
player_count-append b x h =
    rw (drop-short 5 b x (omega arith))
      (read_le-append 2 (drop 5 b) x (omega (arith, length-drop 5 b)))

abbrev pub parse : List ℕ → Option ParsedServerStatsMessage × List ℕ
parse = try_parse_server_stats_message

message_size : List ℕ → ℕ
message_size b = 7 + player_count b * 24

message_at : List ℕ → ParsedServerStatsMessage
message_at b = record {
  generation = read_le 4 (drop 1 b);
  players = parse_players (player_count b) (drop 7 b);
}

-- A message at the front of the buffer, and what more bytes behind it change.
parse_stats_at-short :
    (b : List ℕ) → ltb (length b) (message_size b) ≡ true → parse_stats_at b ≡ (none, b)
unfolding parse_stats_at message_size
parse_stats_at-short b h = rw h

parse_stats_at-whole :
    (b : List ℕ)
    → ltb (length b) (message_size b) ≡ false
    → parse_stats_at b ≡ (some (message_at b), drop (message_size b) b)
unfolding parse_stats_at message_size message_at
parse_stats_at-whole b h = rw h

message_size_lem : (b : List ℕ) → 7 ≤ message_size b
unfolding message_size
message_size_lem b = omega arith

message_at-append :
    (b x : List ℕ)
    → 7 ≤ length b
    → message_size b ≤ length b
    → (message_size (b ++ x) ≡ message_size b) × (message_at (b ++ x) ≡ message_at b)
unfolding message_size message_at
message_at-append b x h k =
    let c = player_count-append b x h in
    (
      rw c,
      rw (
        c,
        drop-short 1 b x (omega (arith, h)),
        read_le-append 4 (drop 1 b) x (omega (arith, h, length-drop 1 b)),
        drop-short 7 b x (omega (arith, h)),
        parse_players-append (player_count b) (drop 7 b) x (omega (arith, h, k, length-drop 7 b)),
      ),
    )

parse_few : (b : List ℕ) → ltb (length b) 7 ≡ true → parse b ≡ (none, b)
unfolding try_parse_server_stats_message
parse_few [] h = refl
parse_few (a ∷ bs) h = rw h

module _ (a : ℕ) (bs : List ℕ) (enough : ltb (length (a ∷ bs)) 7 ≡ false) where
  parse_skip : (a == msg_server_stats) ≡ false → parse (a ∷ bs) ≡ parse bs
  unfolding try_parse_server_stats_message
  parse_skip h = rw (enough, h)

  parse_here : (a == msg_server_stats) ≡ true → parse (a ∷ bs) ≡ parse_stats_at (a ∷ bs)
  unfolding try_parse_server_stats_message
  parse_here h = rw (enough, h)

ge_test : (m n : ℕ) → n ≤ m → ltb m n ≡ false
ge_test m n h = ground arith

ltb_at_least : (m n : ℕ) → ltb m n ≡ false → n ≤ m
ltb_at_least m n h = ground arith

-- What the parser makes of a buffer, and of the buffer when more bytes have come.
pub data Parses (b : List ℕ) : Type 0 where
  waits :
      (rest : List ℕ)
      → parse b ≡ (none, rest)
      → parse rest ≡ (none, rest)
      → length rest ≤ length b
      → ((x : List ℕ) → parse (b ++ x) ≡ parse (rest ++ x))
      → Parses b
  reads :
      (msg : ParsedServerStatsMessage) (rest : List ℕ)
      → parse b ≡ (some msg, rest)
      → length rest < length b
      → ((x : List ℕ) → parse (b ++ x) ≡ (some msg, rest ++ x))
      → Parses b

longer : (b x : List ℕ) (n : ℕ) → ltb (length b) n ≡ false → ltb (length (b ++ x)) n ≡ false
longer b x n h = ge_test _ n (omega (arith, ltb_at_least (length b) n h, length-append b x))

front_read :
    (a : ℕ) (bs : List ℕ)
    → ltb (length (a ∷ bs)) 7 ≡ false
    → (a == msg_server_stats) ≡ true
    → Parses (a ∷ bs)
front_read a bs enough hit =
    let b = a ∷ bs in
    elim (Bool-cases (ltb (length b) (message_size b))) [
      | inl short ↦
          let e = parse_here a bs enough hit ∙ parse_stats_at-short b short in
          waits b e e (omega arith) (λ x. refl)
      | inr whole ↦
          reads (message_at b) (drop (message_size b) b)
            (parse_here a bs enough hit ∙ parse_stats_at-whole b whole)
            (omega (arith, length-drop (message_size b) b, message_size_lem b))
            (λ x.
              let (size, same) =
                message_at-append b x (ltb_at_least _ 7 enough) (ltb_at_least _ _ whole) in
              parse_here a (bs ++ x) (longer b x 7 enough) hit
              ∙ (parse_stats_at-whole (b ++ x) (rw size (longer b x (message_size b) whole))
                  ∙ rw (size, same, drop-short (message_size b) b x (ltb_at_least _ _ whole))))
    ]

pub outcome : (b : List ℕ) → Parses b
unfolding try_parse_server_stats_message
outcome [] = waits [] refl refl (omega arith) (λ x. refl)
outcome (a ∷ bs) = elim (Bool-cases (ltb (length (a ∷ bs)) 7)) [
  | inl few ↦
      waits (a ∷ bs) (parse_few (a ∷ bs) few) (parse_few (a ∷ bs) few) (omega arith) (λ x. refl)
  | inr enough ↦ elim (Bool-cases (a == msg_server_stats)) [
    | inl hit ↦ front_read a bs enough hit
    | inr other ↦ elim (outcome bs) [
      | waits rest e f l more ↦
          waits rest (parse_skip a bs enough other ∙ e) f (omega (arith, l))
            (λ x. parse_skip a (bs ++ x) (longer (a ∷ bs) x 7 enough) other ∙ more x)
      | reads msg rest e l more ↦
          reads msg rest (parse_skip a bs enough other ∙ e) (omega (arith, l))
            (λ x. parse_skip a (bs ++ x) (longer (a ∷ bs) x 7 enough) other ∙ more x)
    ]
  ]
]
