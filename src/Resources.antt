-- ===== src/Resources.antt =====
-- server/include/ResourceManager.hpp and server/src/ResourceManager.cpp: the balances of the players,
-- 64-bit counters in a hash map. Each method holds the lock from start to end, so it is one step.
pub mod Balances
pub mod Known
use multilife.Prelude.{
  ℕ, ◌+◌, ◌-◌, ◌*◌, ◌%◌, ◌^◌, Bool, true, false, ltb, if◌then◌else◌, List, [], ◌∷◌, Option, none,
  some, map, each, nat_eq,
}
use multilife.Prelude.Map.{find, insert}
use multilife.Chunk.{or_zero}

-- `World.hpp`
abbrev pub place_cost : ℕ
place_cost = 2

abbrev pub remove_award : ℕ
remove_award = 1

abbrev pub alive_cell_award : ℕ
alive_cell_award = 1

abbrev pub start_balance : ℕ
start_balance = 10

pub record ResourceManager : Type 0 where
  pub balances : List (ℕ × ℕ)

-- Returns the balance that the player now has.
unfoldable pub add_player : ResourceManager → ℕ → ResourceManager × ℕ
add_player r player_id =
    (record { balances = insert player_id start_balance r.balances }, start_balance)

unfoldable pub get_balance : ResourceManager → ℕ → ℕ
get_balance r player_id = or_zero (find player_id r.balances)

unfoldable pub try_spend : ResourceManager → ℕ → ℕ → ResourceManager × Bool
try_spend r player_id amount = elim (find player_id r.balances) [
  | none ↦ (r, false)
  | some balance ↦
      if ltb balance amount
      then (r, false)
      else (record { balances = insert player_id (balance - amount) r.balances }, true)
]

unfoldable pub award : ResourceManager → ℕ → ℕ → ResourceManager × Bool
award r player_id amount = elim (find player_id r.balances) [
  | none ↦ (r, false)
  | some balance ↦
      (record { balances = insert player_id ((balance + amount) % 2 ^ 64) r.balances }, true)
]

-- `m_balances[playerId] += live * kAliveCellAward`, which makes an entry where there is none.
unfoldable pub award_live : ℕ × ℕ → ResourceManager → ResourceManager
award_live (player_id, live) r = record {
  balances =
      insert player_id
        ((or_zero (find player_id r.balances) + live * alive_cell_award % 2 ^ 64) % 2 ^ 64)
        r.balances;
}

unfoldable pub award_from_live_counts : ResourceManager → List (ℕ × ℕ) → ResourceManager
award_from_live_counts r live_counts = each live_counts award_live r

unfoldable pub get_player_ids : ResourceManager → List ℕ
get_player_ids r = map (λ p. p.0) r.balances
