-- ===== src/Client/WorldModel.antt =====
-- client/include/WorldModel.h and client/src/WorldModel.cpp: the client's copy of the world, a hash map
-- from the cells that are owned to their owners. The signals that tell the views are not modelled.
pub mod Updates
use multilife.Prelude.{
  ℕ, ◌+◌, Bool, true, ◌&&◌, ◌||◌, ◌≡◌, ◌↔◌, ltb, ◌==◌, if◌then◌else◌, List, [], ◌∷◌, length, each,
  Eq, nat_eq, arith,
}
use multilife.Prelude.Int.{ℤ, pos, nonneg, tdiv, ◌+ℤ◌, ◌-ℤ◌, ◌==ℤ◌, scale, pos_part, neg_part}
use multilife.Prelude.Map.{find, insert, erase}
use multilife.Chunk.{or_zero}

pub record CellKey : Type 0 where
  pub x : ℤ
  pub y : ℤ

abbrev pub key_eq : CellKey → CellKey → Bool
key_eq a b = a.x ==ℤ b.x && a.y ==ℤ b.y

pub key_eq_iff : (a b : CellKey) → (key_eq a b ≡ true) ↔ (a ≡ b)
key_eq_iff a b = ground arith

instance abbrev pub cell_key_eq : Eq CellKey
cell_key_eq = record { beq = key_eq; beq_iff = key_eq_iff }

pub record AliveCell : Type 0 where
  pub x : ℤ
  pub y : ℤ
  pub owner : ℕ

abbrev pub AliveCells : Type 0
AliveCells = List (CellKey × ℕ)

pub record WorldModel : Type 0 where
  pub alive_cells : AliveCells
  pub generation : ℕ

-- `floorDiv`; the divisor is a constant that is not negative.
unfoldable pub floor_div : ℤ → ℕ → ℤ
floor_div value divisor =
    if divisor == 0
    then pos 0
    else (if nonneg value then tdiv value divisor else tdiv (value -ℤ pos divisor +ℤ pos 1) divisor)

abbrev pub chunk_size : ℕ
chunk_size = 64

unfoldable pub reset : WorldModel → WorldModel
reset m = record { alive_cells = []; generation = 0 }

unfoldable pub in_chunk : ℤ → ℤ → CellKey → Bool
in_chunk chunk_x chunk_y key =
    floor_div key.x chunk_size ==ℤ chunk_x && floor_div key.y chunk_size ==ℤ chunk_y

-- The loop that erases the chunk's cells.
unfoldable pub erase_chunk : ℤ → ℤ → AliveCells → AliveCells
erase_chunk chunk_x chunk_y [] = []
erase_chunk chunk_x chunk_y ((key, owner) ∷ cells) =
    if in_chunk chunk_x chunk_y key
    then erase_chunk chunk_x chunk_y cells
    else (key, owner) ∷ erase_chunk chunk_x chunk_y cells

abbrev pub key_of : ℤ → ℤ → AliveCell → CellKey
key_of chunk_x chunk_y update = record {
  x = scale chunk_size chunk_x +ℤ update.x;
  y = scale chunk_size chunk_y +ℤ update.y;
}

unfoldable pub apply_cell : ℤ → ℤ → AliveCell → AliveCells → AliveCells
apply_cell chunk_x chunk_y update cells =
    if update.owner == 0
    then erase (key_of chunk_x chunk_y update) cells
    else insert (key_of chunk_x chunk_y update) update.owner cells

unfoldable pub apply_update : ℕ → Bool → ℤ → ℤ → List AliveCell → WorldModel → WorldModel
apply_update seq_num full_snapshot chunk_x chunk_y updates m = record {
  alive_cells =
      each updates (apply_cell chunk_x chunk_y)
        (if full_snapshot then erase_chunk chunk_x chunk_y m.alive_cells else m.alive_cells);
  generation = seq_num;
}

abbrev pub ltb_ℤ : ℤ → ℤ → Bool
ltb_ℤ a b = ltb (pos_part a + neg_part b) (pos_part b + neg_part a)

-- The bounds are the rectangle's, already rounded outwards to integers.
unfoldable pub visible_cells : ℤ → ℤ → ℤ → ℤ → AliveCells → List AliveCell
visible_cells left top right bottom [] = []
visible_cells left top right bottom ((key, owner) ∷ cells) =
    if ltb_ℤ key.x left || ltb_ℤ right key.x || ltb_ℤ key.y top || ltb_ℤ bottom key.y
    then visible_cells left top right bottom cells
    else record { x = key.x; y = key.y; owner = owner } ∷ visible_cells left top right bottom cells

unfoldable pub live_cells_owned_by : AliveCells → ℕ → ℕ
live_cells_owned_by [] owner_id = 0
live_cells_owned_by ((key, owner) ∷ cells) owner_id =
    (if owner == owner_id then 1 else 0) + live_cells_owned_by cells owner_id

unfoldable pub count_owners : AliveCells → List (ℕ × ℕ) → List (ℕ × ℕ)
count_owners [] counts = counts
count_owners ((key, owner) ∷ cells) counts =
    count_owners cells (insert owner (or_zero (find owner counts) + 1) counts)

-- The comparison of `ownerStats`: the larger count first, then the smaller id.
abbrev pub before : ℕ × ℕ → ℕ × ℕ → Bool
before a b = if a.1 == b.1 then ltb a.0 b.0 else ltb b.1 a.1

-- `std::sort`, by insertion.
unfoldable pub sort_insert : ℕ × ℕ → List (ℕ × ℕ) → List (ℕ × ℕ)
sort_insert e [] = e ∷ []
sort_insert e (f ∷ fs) = if before f e then f ∷ sort_insert e fs else e ∷ f ∷ fs

unfoldable pub sort_stats : List (ℕ × ℕ) → List (ℕ × ℕ)
sort_stats [] = []
sort_stats (e ∷ es) = sort_insert e (sort_stats es)

unfoldable pub owner_stats : WorldModel → List (ℕ × ℕ)
owner_stats m = sort_stats (count_owners m.alive_cells [])

unfoldable pub owner_at : WorldModel → ℤ → ℤ → ℕ
owner_at m x y = or_zero (find (record { x = x; y = y }) m.alive_cells)

unfoldable pub live_cells_count : WorldModel → ℕ
live_cells_count m = length m.alive_cells
