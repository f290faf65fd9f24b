-- ===== src/Resources/Balances.antt =====
-- server/src/ResourceManager.cpp: what each method does to every player's balance.
use multilife.Prelude.{
  ℕ, ◌+◌, ◌-◌, ◌%◌, ◌^◌, ◌≤◌, ◌<◌, ◌≡◌, ◌≢◌, Bool, true, false, ◌==◌, if◌then◌else◌, List, [], ◌∷◌,
  none, arith, each, nat_eq,
}
use multilife.Prelude.Map.{find, find-insert}
use multilife.Chunk.{or_zero}
use multilife.Resources.{
  ResourceManager, add_player, get_balance, try_spend, award, award_live, award_from_live_counts,
  start_balance,
}

abbrev pub IsKnown : ℕ → ResourceManager → Type 0
IsKnown p r = find p r.balances ≢ none

-- The balances are 64-bit numbers.
abbrev pub Fits : ResourceManager → Type 0
Fits r = (p : ℕ) → get_balance r p < 2 ^ 64

pub get_balance-add_player :
    (r : ResourceManager) (p q : ℕ)
    → get_balance (add_player r p).0 q ≡ (if p == q then start_balance else get_balance r q)
unfolding get_balance add_player
get_balance-add_player r p q = rw find-insert (ground arith)

-- A spend succeeds exactly for a player who is known and has the amount. Then it takes the amount
-- from that player and nobody else; otherwise it changes nothing.
pub record Spends (r : ResourceManager) (p amount : ℕ) (out : ResourceManager × Bool) : Type 0 where
  pub pays :
      IsKnown p r
      → amount ≤ get_balance r p
      → (out.1 ≡ true)
        × ((q : ℕ)
            → get_balance out.0 q ≡ (if p == q then get_balance r p - amount else get_balance r q))
  pub short : get_balance r p < amount → (out.1 ≡ false) × (out.0 ≡ r)
  pub unknown : find p r.balances ≡ none → (out.1 ≡ false) × (out.0 ≡ r)

-- `trySpend` takes the amount from a player who is known and has it, and from nobody else, and returns
-- true; otherwise it returns false and changes nothing.
pub try_spend-Spends :
    (r : ResourceManager) (p amount : ℕ) → Spends r p amount (try_spend r p amount)
unfolding try_spend get_balance
try_spend-Spends r p amount = record {
  pays = λ known enough. (
    ground arith,
    λ q. ground (arith, find-insert p q (or_zero (find p r.balances) - amount) r.balances),
  );
  short = λ h. ground arith;
  unknown = λ h. ground arith;
}

-- An award succeeds exactly for a player who is known, and wraps at 64 bits.
pub record Awards (r : ResourceManager) (p amount : ℕ) (out : ResourceManager × Bool) : Type 0 where
  pub pays :
      IsKnown p r
      → (out.1 ≡ true)
        × ((q : ℕ)
            → get_balance out.0 q
              ≡ (if p == q then (get_balance r p + amount) % 2 ^ 64 else get_balance r q))
  pub unknown : find p r.balances ≡ none → (out.1 ≡ false) × (out.0 ≡ r)

-- `award` gives the amount to a player who is known, modulo 64 bits, and to nobody else, and returns true;
-- for an unknown player it returns false and changes nothing.
pub award-Awards : (r : ResourceManager) (p amount : ℕ) → Awards r p amount (award r p amount)
unfolding award get_balance
award-Awards r p amount = record {
  pays = λ known. (
    ground arith,
    λ q.
        ground
          (arith, find-insert p q ((or_zero (find p r.balances) + amount) % 2 ^ 64) r.balances),
  );
  unknown = λ h. ground arith;
}

-- What a list of counts holds for one player.
unfoldable pub total : ℕ → List (ℕ × ℕ) → ℕ
total p [] = 0
total p ((q, n) ∷ m) = (if q == p then n else 0) + total p m

get_balance-award_live :
    (r : ResourceManager) (e : ℕ × ℕ) (p : ℕ)
    → get_balance (award_live e r) p
      ≡ (if e.0 == p then (get_balance r p + e.1 % 2 ^ 64) % 2 ^ 64 else get_balance r p)
unfolding get_balance award_live
get_balance-award_live r e p = rw find-insert (ground arith)

-- The income of a tick, if the balances fit 64 bits: each player gets one for each cell counted, modulo
-- 64 bits; a player who had no entry counts as one with nothing.
pub get_balance-award_from_live_counts :
    (counts : List (ℕ × ℕ)) (r : ResourceManager) (p : ℕ)
    → Fits r
    → get_balance (award_from_live_counts r counts) p ≡ (get_balance r p + total p counts) % 2 ^ 64
unfolding award_from_live_counts each total
get_balance-award_from_live_counts [] r p f = omega (arith, f p)
get_balance-award_from_live_counts ((q, n) ∷ m) r p f = ground (
  arith,
  get_balance-award_live r (q, n) p,
  get_balance-award_from_live_counts m (award_live (q, n) r) p
      (λ s. ground (arith, get_balance-award_live r (q, n) s, f s)),
)
