-- ===== src/Stats.antt =====
-- server/src/GameServer.cpp, `serializeServerStats`: the statistics that are sent to every client.
pub mod Message
use multilife.Prelude.{ℕ, ◌%◌, ◌^◌, leb, if◌then◌else◌, List, [], ◌∷◌, ◌++◌, length, take, nat_eq}
use multilife.Prelude.Map.{find}
use multilife.Chunk.{or_zero}
use multilife.Resources.{ResourceManager, get_balance, get_player_ids}
use multilife.Wire.{write_le, msg_server_stats}

-- `std::sort` of the ids, by insertion.
unfoldable pub sort_insert : ℕ → List ℕ → List ℕ
sort_insert a [] = a ∷ []
sort_insert a (b ∷ bs) = if leb a b then a ∷ b ∷ bs else b ∷ sort_insert a bs

unfoldable pub sort : List ℕ → List ℕ
sort [] = []
sort (a ∷ rest) = sort_insert a (sort rest)

abbrev pub max_players : ℕ
max_players = 65535

-- The ids that are sent, in order.
unfoldable pub sent_ids : ResourceManager → List ℕ
sent_ids r = take max_players (sort (get_player_ids r))

unfoldable pub stats_entries : ResourceManager → List (ℕ × ℕ) → List ℕ → List ℕ
stats_entries r live_counts [] = []
stats_entries r live_counts (player_id ∷ ids) =
    write_le 8 player_id
    ++ (write_le 8 (get_balance r player_id)
        ++ (write_le 8 (or_zero (find player_id live_counts)) ++ stats_entries r live_counts ids))

unfoldable pub serialize_server_stats : ℕ → ResourceManager → List (ℕ × ℕ) → List ℕ
serialize_server_stats generation r live_counts =
    msg_server_stats
    ∷ (write_le 4 generation
        ++ (write_le 2 (length (sent_ids r) % 2 ^ 16) ++ stats_entries r live_counts (sent_ids r)))
