-- ===== src/World/Edits.antt =====
-- server/src/World.cpp, the `switch` of `applyCommands`: what one command does to its cell and to the
-- balances.
use multilife.Prelude.{
  ℕ, ◌+◌, ◌-◌, ◌%◌, ◌^◌, ◌≡◌, refl, ◌≢◌, ◌⊎◌, inl, inr, true, false, ◌==◌, if◌then◌else◌,
  Bool-cases, arith, nat_eq, ==_iff,
}
use multilife.Prelude.Map.{find, find-insert}
use multilife.Chunk.{or_zero}
use multilife.Types.{CellState, dead_cell, CommandType, place_cell, remove_cell, toggle_cell}
use multilife.Resources.{ResourceManager, get_balance, try_spend, award}
use multilife.Resources.Balances.{IsKnown, award-Awards}
use multilife.World.{edit_cell}

-- A cell is alive exactly if it has an owner.
abbrev pub IsOwned : CellState → Type 0
IsOwned cell = (cell.alive ≡ false → cell.owner ≡ 0) × (cell.alive ≡ true → cell.owner ≢ 0)

-- A cell that belongs to somebody else is out of reach: nothing changes and nobody pays.
pub edit_cell-foreign :
    (t : CommandType) (p : ℕ) (cell : CellState) (r : ResourceManager)
    → cell.owner ≢ 0
    → cell.owner ≢ p
    → edit_cell t p cell r ≡ (cell, r)
unfolding edit_cell
edit_cell-foreign place_cell p cell r h k = ground arith
edit_cell-foreign remove_cell p cell r h k = ground arith
edit_cell-foreign toggle_cell p cell r h k = ground arith

try_spend-others :
    (r : ResourceManager) (p amount q : ℕ)
    → p ≢ q
    → get_balance (try_spend r p amount).0 q ≡ get_balance r q
unfolding try_spend get_balance
try_spend-others r p amount q h =
    ground (arith, find-insert p q (or_zero (find p r.balances) - amount) r.balances)

award-others :
    (r : ResourceManager) (p amount q : ℕ)
    → p ≢ q
    → get_balance (award r p amount).0 q ≡ get_balance r q
unfolding award get_balance
award-others r p amount q h =
    ground (arith, find-insert p q ((or_zero (find p r.balances) + amount) % 2 ^ 64) r.balances)

-- No command touches the balance of another player.
pub edit_cell-others :
    (t : CommandType) (p : ℕ) (cell : CellState) (r : ResourceManager) (q : ℕ)
    → p ≢ q
    → get_balance (edit_cell t p cell r).1 q ≡ get_balance r q
unfolding edit_cell
edit_cell-others place_cell p cell r q h = ground (arith, try_spend-others r p 2 q h)
edit_cell-others remove_cell p cell r q h = ground (arith, award-others r p 1 q h)
edit_cell-others toggle_cell p cell r q h =
    ground (arith, try_spend-others r p 2 q h, award-others r p 1 q h)

-- A cell stays alive exactly if it is owned, under every command of a player other than 0.
pub edit_cell-IsOwned :
    (t : CommandType) (p : ℕ) (cell : CellState) (r : ResourceManager)
    → p ≢ 0
    → IsOwned cell
    → IsOwned (edit_cell t p cell r).0
unfolding edit_cell
edit_cell-IsOwned place_cell p cell r k h = ground arith
edit_cell-IsOwned remove_cell p cell r k h = ground arith
edit_cell-IsOwned toggle_cell p cell r k h = ground arith

-- What a command of a player may come to: nothing, a cell bought, or a cell sold.
pub data Deal (p : ℕ) (cell : CellState) (r : ResourceManager) (out : CellState × ResourceManager)
    : Type 0 where
  nothing : out ≡ (cell, r) → Deal p cell r out
  bought :
      cell ≡ dead_cell
      → out.0 ≡ record { alive = true; owner = p }
      → get_balance out.1 p + 2 ≡ get_balance r p
      → Deal p cell r out
  sold :
      cell ≡ record { alive = true; owner = p }
      → out.0 ≡ dead_cell
      → get_balance out.1 p ≡ (get_balance r p + 1) % 2 ^ 64
      → Deal p cell r out

try_spend-cases :
    (r : ResourceManager) (p amount : ℕ)
    → (try_spend r p amount ≡ (r, false))
      ⊎ ((try_spend r p amount).1 ≡ true)
        × (get_balance (try_spend r p amount).0 p + amount ≡ get_balance r p)
unfolding try_spend get_balance
try_spend-cases r p amount =
    ground (arith, find-insert p p (or_zero (find p r.balances) - amount) r.balances)

award-cases :
    (r : ResourceManager) (p amount : ℕ)
    → (award r p amount ≡ (r, false))
      ⊎ ((award r p amount).1 ≡ true)
        × (get_balance (award r p amount).0 p ≡ (get_balance r p + amount) % 2 ^ 64)
unfolding award get_balance
award-cases r p amount =
    ground (arith, find-insert p p ((or_zero (find p r.balances) + amount) % 2 ^ 64) r.balances)

abbrev bought_cell : ℕ → CellState
bought_cell p = record { alive = true; owner = p }

buy :
    (p : ℕ) (cell : CellState) (r : ResourceManager)
    → cell ≡ dead_cell
    → Deal p cell r (if (try_spend r p 2).1 then bought_cell p else cell, (try_spend r p 2).0)
buy p cell r e = elim (try_spend-cases r p 2) [
  | inl refused ↦ rw refused (nothing refl)
  | inr paid ↦ rw paid.0 (bought e refl paid.1)
]

sell :
    (p : ℕ) (cell : CellState) (r : ResourceManager)
    → cell ≡ bought_cell p
    → Deal p cell r (if (award r p 1).1 then dead_cell else cell, (award r p 1).0)
sell p cell r e = elim (award-cases r p 1) [
  | inl refused ↦ rw refused (nothing refl)
  | inr paid ↦ rw paid.0 (sold e refl paid.1)
]

unowned : (cell : CellState) → IsOwned cell → cell.owner ≡ 0 → cell ≡ dead_cell
unowned cell h e = ground arith

owned : (cell : CellState) (p : ℕ) → p ≢ 0 → IsOwned cell → cell.owner ≡ p → cell ≡ bought_cell p
owned cell p k h e = ground arith

place_hit :
    (p : ℕ) (cell : CellState) (r : ResourceManager)
    → (cell.owner == 0) ≡ true
    → edit_cell place_cell p cell r
      ≡ (if (try_spend r p 2).1 then bought_cell p else cell, (try_spend r p 2).0)
unfolding edit_cell
place_hit p cell r e = rw e

remove_hit :
    (p : ℕ) (cell : CellState) (r : ResourceManager)
    → (cell.owner == p) ≡ true
    → edit_cell remove_cell p cell r
      ≡ (if (award r p 1).1 then dead_cell else cell, (award r p 1).0)
unfolding edit_cell
remove_hit p cell r e = rw e

toggle_dead :
    (p : ℕ) (cell : CellState) (r : ResourceManager)
    → cell ≡ dead_cell
    → edit_cell toggle_cell p cell r
      ≡ (if (try_spend r p 2).1 then bought_cell p else cell, (try_spend r p 2).0)
unfolding edit_cell
toggle_dead p cell r e = rw e

toggle_live :
    (p : ℕ) (cell : CellState) (r : ResourceManager)
    → p ≢ 0
    → cell ≡ bought_cell p
    → edit_cell toggle_cell p cell r
      ≡ (if (award r p 1).1 then dead_cell else cell, (award r p 1).0)
unfolding edit_cell
toggle_live p cell r k e = rw e (ground arith)

place_miss :
    (p : ℕ) (cell : CellState) (r : ResourceManager)
    → cell.owner ≢ 0
    → edit_cell place_cell p cell r ≡ (cell, r)
unfolding edit_cell
place_miss p cell r h = ground arith

remove_miss :
    (p : ℕ) (cell : CellState) (r : ResourceManager)
    → cell.owner ≢ p
    → edit_cell remove_cell p cell r ≡ (cell, r)
unfolding edit_cell
remove_miss p cell r h = ground arith

-- Every command of a player other than 0, on a cell that is alive exactly if it is owned, either
-- changes nothing at all, or buys a dead cell for two, or sells a cell of the player's own for one.
pub edit_cell-Deal :
    (t : CommandType) (p : ℕ) (cell : CellState) (r : ResourceManager)
    → p ≢ 0
    → IsOwned cell
    → Deal p cell r (edit_cell t p cell r)
edit_cell-Deal place_cell p cell r k h = elim (Bool-cases (cell.owner == 0)) [
  | inl free ↦ rw (place_hit p cell r free) (buy p cell r (unowned cell h ((==_iff _ 0).0 free)))
  | inr taken ↦ nothing (place_miss p cell r (ground arith))
]
edit_cell-Deal remove_cell p cell r k h = elim (Bool-cases (cell.owner == p)) [
  | inl mine ↦
      rw (remove_hit p cell r mine) (sell p cell r (owned cell p k h ((==_iff _ p).0 mine)))
  | inr other ↦ nothing (remove_miss p cell r (ground arith))
]
edit_cell-Deal toggle_cell p cell r k h = elim (Bool-cases (cell.owner == 0)) [
  | inl free ↦
      let e = unowned cell h ((==_iff _ 0).0 free) in rw (toggle_dead p cell r e) (buy p cell r e)
  | inr taken ↦ elim (Bool-cases (cell.owner == p)) [
    | inl mine ↦
        let e = owned cell p k h ((==_iff _ p).0 mine) in
        rw (toggle_live p cell r k e) (sell p cell r e)
    | inr other ↦ nothing (edit_cell-foreign toggle_cell p cell r (ground arith) (ground arith))
  ]
]

-- If player 0, whose id stands for "no owner", has a balance, it is paid one, modulo 64 bits, for removing
-- a dead cell, which stays dead.
pub remove_cell-zero :
    (r : ResourceManager)
    → IsKnown 0 r
    → ((edit_cell remove_cell 0 dead_cell r).0 ≡ dead_cell)
      × (get_balance (edit_cell remove_cell 0 dead_cell r).1 0 ≡ (get_balance r 0 + 1) % 2 ^ 64)
unfolding edit_cell
remove_cell-zero r known =
    let paid = (award-Awards r 0 1).pays known in (ground (arith, paid.0), paid.1 0)
