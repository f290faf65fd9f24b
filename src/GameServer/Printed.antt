-- ===== src/GameServer/Printed.antt =====
-- server/src/World.cpp, `printDebugState`, and server/src/Chunk.cpp, `getLiveCountByPlayer`: two ways to count.
use multilife.Prelude.{
  ℕ, zero, suc, ◌+◌, ◌≡◌, ◌≢◌, refl, sym, ◌∙◌, ap, List, [], upto, upto_inv, nat_eq, arith,
}
use multilife.Prelude.Map.{find}
use multilife.Types.{CellState, chunk_width, chunk_height}
use multilife.Chunk.{Chunk, get_cell, get_live_count_by_player, or_zero}
use multilife.Resources.Balances.{total}
use multilife.World.Debug.{count_owner, owner_counts}
use multilife.GameServer.Counts.{
  cell_share, row_population, rows_population, total-insert, get_live_count_by_player-Tallied,
}

-- Sums of the first values of a function, and of a table by rows and by columns.
abbrev sum : ℕ → (ℕ → ℕ) → ℕ
sum n f = upto n (λ i k. k + f i) 0

sum_add : (n : ℕ) (f g : ℕ → ℕ) → sum n (λ i. f i + g i) ≡ sum n f + sum n g
unfolding upto
sum_add zero f g = omega arith
sum_add (suc n) f g = omega (arith, sum_add n f g)

sum_zero : (n : ℕ) → sum n (λ i. 0) ≡ 0
unfolding upto
sum_zero zero = refl
sum_zero (suc n) = omega (arith, sum_zero n)

sum_swap :
    (n m : ℕ) (f : ℕ → ℕ → ℕ) → sum n (λ x. sum m (λ y. f x y)) ≡ sum m (λ y. sum n (λ x. f x y))
unfolding upto
sum_swap zero m f = sym (sum_zero m)
sum_swap (suc n) m f =
    ap (λ (k : ℕ). k + sum m (λ y. f n y)) (sum_swap n m f)
    ∙ sym (sum_add m (λ y. sum n (λ x. f x y)) (λ y. f n y))

total-count_owner :
    (p : ℕ) (cell : CellState) (m : List (ℕ × ℕ))
    → p ≢ 0
    → total p (count_owner cell m) ≡ total p m + cell_share p cell
unfolding count_owner
total-count_owner p cell m known =
    ground (arith, total-insert p cell.owner (or_zero (find cell.owner m) + 1) m, known)

column_counts :
    (p : ℕ) (c : Chunk) (x : ℕ) (m : List (ℕ × ℕ))
    → p ≢ 0
    → total p (upto chunk_height (λ y. count_owner (get_cell c x y)) m)
      ≡ total p m + sum chunk_height (λ y. cell_share p (get_cell c x y))
unfolding upto
column_counts p c x m known =
    upto_inv (λ n t. total p t ≡ total p m + sum n (λ y. cell_share p (get_cell c x y)))
      chunk_height (λ y. count_owner (get_cell c x y)) m (omega arith)
      (λ y t lt k. total-count_owner p (get_cell c x y) t known ∙ omega (arith, k))

-- For every player but 0, the number of live cells of a tile that is printed is the one that
-- `getLiveCountByPlayer` counts, though one goes through the tile by columns and the other by rows.
pub total-owner_counts :
    (p : ℕ) (c : Chunk) → p ≢ 0 → total p (owner_counts c) ≡ total p (get_live_count_by_player c)
unfolding owner_counts upto row_population rows_population total
total-owner_counts p c known =
    upto_inv (λ n t. total p t ≡ sum n (λ x. sum chunk_height (λ y. cell_share p (get_cell c x y))))
      chunk_width (λ x. upto chunk_height (λ y. count_owner (get_cell c x y))) [] refl
      (λ x t lt k. column_counts p c x t known ∙ omega (arith, k))
    ∙ (sum_swap chunk_width chunk_height (λ x y. cell_share p (get_cell c x y))
        ∙ sym (get_live_count_by_player-Tallied c p))
