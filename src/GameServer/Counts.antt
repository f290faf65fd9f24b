-- ===== src/GameServer/Counts.antt =====
-- server/src/Chunk.cpp, `getLiveCountByPlayer`, and the sum of the counts in server/src/GameServer.cpp: the
-- counters of the players against the cells of the tiles.
use multilife.Prelude.{
  ℕ, zero, suc, ◌+◌, ◌*◌, ◌%◌, ◌^◌, ◌≤◌, ◌<◌, ◌≡◌, refl, ◌∙◌, ap, not, ◌&&◌, ◌==◌, if◌then◌else◌,
  List, [], ◌∷◌, inl, inr, Bool-cases, upto, upto_inv, each, nat_eq, ==_iff, arith, length,
}
use multilife.Prelude.Map.{find, insert}
use multilife.Types.{CellState, chunk_width, chunk_height}
use multilife.Chunk.{
  Chunk, get_cell, counts, or_zero, add_count, get_live_count_by_player, is_dirty, clear_dirty,
}
use multilife.Resources.Balances.{Fits, total}
use multilife.World.{ChunkMap}
use multilife.Serializer.{serialize_delta, serialize_delta_from}
use multilife.Resources.{get_balance}
use multilife.GameServer.{GameServer, total_counts, broadcast, on_tick, refresh_full_snapshot_cache}
use multilife.GameServer.Tick.{on_tick_lem, on_tick-income, edited_world, settled}

find-le-total : (p : ℕ) (m : List (ℕ × ℕ)) → or_zero (find p m) ≤ total p m
unfolding find total
find-le-total p [] = omega arith
find-le-total p ((q, n) ∷ m) = ground (arith, find-le-total p m)

abbrev pub share : ℕ → ℕ → ℕ → ℕ
share p q n = if q == p then n else 0

pub total-insert :
    (p q v : ℕ) (m : List (ℕ × ℕ))
    → total p (insert q v m) + share p q (or_zero (find q m)) ≡ total p m + share p q v
unfolding insert find total
total-insert p q v [] = ground arith
total-insert p q v ((r, n) ∷ m) =
    ground (arith, total-insert p q v m, ==_iff r q, ==_iff q p, ==_iff r p)

total-add_count :
    (p q n : ℕ) (m : List (ℕ × ℕ))
    → total q m + n < 2 ^ 64
    → total p (add_count q n m) ≡ total p m + share p q n
unfolding add_count
total-add_count p q n m h =
    ground (arith, total-insert p q ((or_zero (find q m) + n) % 2 ^ 64) m, find-le-total q m)

abbrev pub cell_share : ℕ → CellState → ℕ
cell_share p cell = if cell.alive && not (cell.owner == 0) && cell.owner == p then 1 else 0

-- How many live cells of the player are in the first cells of a row, in the first rows of a tile, and in
-- the tiles of a world.
unfoldable pub row_population : ℕ → Chunk → ℕ → ℕ → ℕ
row_population p c y n = upto n (λ x k. k + cell_share p (get_cell c x y)) 0

unfoldable pub rows_population : ℕ → Chunk → ℕ → ℕ
rows_population p c n = upto n (λ y k. k + row_population p c y chunk_width) 0

unfoldable pub population : ℕ → ChunkMap → ℕ
population p [] = 0
population p ((k, c) ∷ m) = rows_population p c chunk_height + population p m

row_population-le : (p : ℕ) (c : Chunk) (y n : ℕ) → row_population p c y n ≤ n
unfolding row_population upto
row_population-le p c y zero = omega arith
row_population-le p c y (suc n) = ground (arith, row_population-le p c y n)

rows_population-le : (p : ℕ) (c : Chunk) (n : ℕ) → rows_population p c n ≤ n * 64
unfolding rows_population upto
rows_population-le p c zero = omega arith
rows_population-le p c (suc n) =
    omega (arith, rows_population-le p c n, row_population-le p c n chunk_width)

tally : CellState → List (ℕ × ℕ) → List (ℕ × ℕ)
tally cell m = if counts cell then add_count cell.owner 1 m else m

total-tally :
    (p : ℕ) (cell : CellState) (m : List (ℕ × ℕ))
    → total cell.owner m + 1 < 2 ^ 64
    → total p (tally cell m) ≡ total p m + cell_share p cell
unfolding tally
total-tally p cell m h = ground (arith, total-add_count p cell.owner 1 m)

-- The counters so far, against the cells so far.
abbrev pub Tallied : (ℕ → ℕ) → List (ℕ × ℕ) → Type 0
Tallied f m = (p : ℕ) → total p m ≡ f p

row-Tallied :
    (c : Chunk) (y : ℕ) (f : ℕ → ℕ) (m : List (ℕ × ℕ))
    → ((p : ℕ) → f p ≤ 4096)
    → Tallied f m
    → Tallied
        (λ p. f p + row_population p c y chunk_width)
        (upto chunk_width (λ x. tally (get_cell c x y)) m)
unfolding row_population upto
row-Tallied c y f m small h =
    upto_inv (λ n t. Tallied (λ p. f p + row_population p c y n) t) chunk_width
      (λ x. tally (get_cell c x y)) m (λ p. h p ∙ omega arith)
      (λ i t lt k p.
        total-tally p (get_cell c i y) t (
          omega (
            arith,
            k (get_cell c i y).owner,
            small (get_cell c i y).owner,
            row_population-le (get_cell c i y).owner c y i,
            lt,
          ))
        ∙ omega (arith, k p))

pub get_live_count_by_player-Tallied :
    (c : Chunk) → Tallied (λ p. rows_population p c chunk_height) (get_live_count_by_player c)
unfolding get_live_count_by_player rows_population upto tally get_cell total
get_live_count_by_player-Tallied c =
    upto_inv (λ n t. Tallied (λ p. rows_population p c n) t) chunk_height
      (λ y. upto chunk_width (λ x. tally (get_cell c x y))) [] (λ p. refl)
      (λ i t lt k.
        row-Tallied c i (λ p. rows_population p c i) t
          (λ p. omega (arith, rows_population-le p c i, lt)) k)

-- The counters of one tile, put to those of the tiles before it.
abbrev merge : List (ℕ × ℕ) → List (ℕ × ℕ) → List (ℕ × ℕ)
merge es totals = each es (λ (p, count). add_count p count) totals

merge-Tallied :
    (es : List (ℕ × ℕ)) (f : ℕ → ℕ) (m : List (ℕ × ℕ))
    → ((p : ℕ) → f p + total p es < 2 ^ 64)
    → Tallied f m
    → Tallied (λ p. f p + total p es) (merge es m)
unfolding each total
merge-Tallied [] f m fits h p = h p ∙ omega arith
merge-Tallied ((q, n) ∷ es) f m fits h p =
    merge-Tallied es (λ r. f r + share r q n) (add_count q n m) (λ r. omega (arith, fits r))
      (λ r. total-add_count r q n m (ground (arith, fits q, h q)) ∙ omega (arith, h r)) p
    ∙ omega arith

totals_from-Tallied :
    (w : ChunkMap) (f : ℕ → ℕ) (m : List (ℕ × ℕ))
    → ((p : ℕ) → f p + population p w < 2 ^ 64)
    → Tallied f m
    → Tallied
        (λ p. f p + population p w)
        (each w (λ entry totals. merge (get_live_count_by_player entry.1) totals) m)
unfolding each population
totals_from-Tallied [] f m fits h p = h p ∙ omega arith
totals_from-Tallied ((k, c) ∷ w) f m fits h p =
    totals_from-Tallied w (λ r. f r + total r (get_live_count_by_player c))
      (merge (get_live_count_by_player c) m)
      (λ r. omega (arith, fits r, get_live_count_by_player-Tallied c r))
      (merge-Tallied (get_live_count_by_player c) f m
        (λ r. omega (arith, fits r, get_live_count_by_player-Tallied c r)) h)
      p
    ∙ omega (arith, get_live_count_by_player-Tallied c p)

-- The counters of a tick are the numbers of live cells of each player in all tiles of the world, if those
-- fit 64 bits.
pub total-total_counts :
    (p : ℕ) (w : ChunkMap)
    → ((q : ℕ) → population q w < 2 ^ 64)
    → total p (total_counts w) ≡ population p w
unfolding total_counts total
total-total_counts p w fits =
    totals_from-Tallied w (λ q. 0) [] (λ q. omega (arith, fits q)) (λ q. refl) p ∙ omega arith

pub population-le : (p : ℕ) (m : ChunkMap) → population p m ≤ 4096 * length m
unfolding population
population-le p [] = omega arith
population-le p ((k, c) ∷ m) = omega (arith, population-le p m, rows_population-le p c chunk_height)

rows_population-clear_dirty :
    (p : ℕ) (c : Chunk) (n : ℕ) → rows_population p (clear_dirty c) n ≡ rows_population p c n
unfolding rows_population row_population clear_dirty get_cell
rows_population-clear_dirty p c n = refl

population-serialize_delta_from :
    (p seq_num : ℕ) (m : ChunkMap) (out : List ℕ)
    → population p (serialize_delta_from seq_num m out).1 ≡ population p m
unfolding population serialize_delta_from
population-serialize_delta_from p seq_num [] out = refl
population-serialize_delta_from p seq_num ((k, c) ∷ m) out = elim (Bool-cases (is_dirty c)) [
  | inl dirty ↦
      rw (dirty, rows_population-clear_dirty p c chunk_height)
        (ap (λ (n : ℕ). rows_population p c chunk_height + n)
          (population-serialize_delta_from p seq_num m _))
  | inr clean ↦ rw clean (
      ap (λ (n : ℕ). rows_population p c chunk_height + n)
        (population-serialize_delta_from p seq_num m _))
]

population-broadcast :
    (p : ℕ) (totals : List (ℕ × ℕ)) (g : GameServer)
    → population p (broadcast totals g).0.world ≡ population p g.world
unfolding broadcast serialize_delta
population-broadcast p totals g = elim (Bool-cases g.has_network) [
  | inl on ↦ rw on (population-serialize_delta_from p g.broadcast_seq g.world [])
  | inr off ↦ rw off
]

pub on_tick-population :
    (p : ℕ) (g : GameServer) → population p (on_tick g).0.world ≡ population p (edited_world g).0
unfolding refresh_full_snapshot_cache
on_tick-population p g =
    rw (on_tick_lem g) (population-broadcast p (total_counts (edited_world g).0) (settled g))

-- Each player has after the tick what the commands left, and one more for each live cell of the player in
-- the world as the tick leaves it, modulo 64 bits, if the balances after the commands and the numbers
-- of live cells fit 64 bits.
pub on_tick-pays :
    (g : GameServer) (p : ℕ)
    → Fits (edited_world g).1
    → ((q : ℕ) → population q (on_tick g).0.world < 2 ^ 64)
    → get_balance (on_tick g).0.resources p
      ≡ (get_balance (edited_world g).1 p + population p (on_tick g).0.world) % 2 ^ 64
on_tick-pays g p f fits =
    on_tick-income g p f
    ∙ rw (
      total-total_counts p (edited_world g).0 (λ q. omega (arith, fits q, on_tick-population q g)),
      on_tick-population p g,
    )
