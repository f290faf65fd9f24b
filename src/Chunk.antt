-- ===== src/Chunk.antt =====
-- server/include/Chunk.hpp and server/src/Chunk.cpp: one 64 x 64 tile with a border of ghost cells,
-- in two buffers. A buffer, a `std::array` of 66 * 66 cells, is a function from its indices; no
-- operation reaches an index outside when x and y are below 64 (storage coordinates below 66).
pub mod Cells
pub mod Votes
pub mod Next
pub mod Life
use multilife.Prelude.{
  ℕ, ◌+◌, ◌-◌, ◌*◌, ◌%◌, ◌^◌, Bool, true, false, not, ◌&&◌, ◌||◌, ltb, leb, ◌==◌, if◌then◌else◌,
  List, [], ◌∷◌, ◌++◌, Option, none, some, upto, nat_eq,
}
use multilife.Prelude.Map.{find, insert}
use multilife.Types.{CellState, dead_cell, chunk_width, chunk_height, to_index}

abbrev pub ghost_border : ℕ
ghost_border = 1

abbrev pub total_width : ℕ
total_width = chunk_width + 2 * ghost_border

abbrev pub total_height : ℕ
total_height = chunk_height + 2 * ghost_border

abbrev pub total_cells : ℕ
total_cells = total_width * total_height

abbrev pub Buffer : Type 0
Buffer = ℕ → CellState

abbrev pub write : ℕ → CellState → Buffer → Buffer
write i v b j = if j == i then v else b j

pub record DirtyCell : Type 0 where
  pub x : ℕ
  pub y : ℕ

pub record Chunk : Type 0 where
  pub current_buffer_index : ℕ
  pub buffers : ℕ → Buffer
  pub dirty_cells : List DirtyCell

abbrev pub index : ℕ → ℕ → ℕ
index storage_x storage_y = to_index storage_x storage_y total_width

-- `1U - m_currentBufferIndex`, in 32 bits.
abbrev pub other_buffer : ℕ → ℕ
other_buffer i = (1 + 2 ^ 32 - i) % 2 ^ 32

abbrev pub set_buffer : ℕ → Buffer → (ℕ → Buffer) → ℕ → Buffer
set_buffer k b bs j = if j == k then b else bs j

abbrev pub current : Chunk → Buffer
current c = c.buffers c.current_buffer_index

-- `Chunk()`
unfoldable pub new : Chunk
new = record { current_buffer_index = 0; buffers = λ k i. dead_cell; dirty_cells = [] }

unfoldable pub get_cell : Chunk → ℕ → ℕ → CellState
get_cell c x y = current c (index (x + ghost_border) (y + ghost_border))

abbrev pub dirty_cell : ℕ → ℕ → DirtyCell
dirty_cell x y = record { x = x % 2 ^ 8; y = y % 2 ^ 8 }

unfoldable pub set_cell : Chunk → ℕ → ℕ → CellState → Chunk
set_cell c x y state = record c {
  buffers =
      set_buffer c.current_buffer_index
        (write (to_index (x + ghost_border) (y + ghost_border) total_width) state (current c))
        c.buffers;
  dirty_cells = c.dirty_cells ++ (dirty_cell x y ∷ []);
}

unfoldable pub get_ghost_cell : Chunk → ℕ → ℕ → CellState
get_ghost_cell c storage_x storage_y = current c (index storage_x storage_y)

unfoldable pub set_ghost_cell : Chunk → ℕ → ℕ → CellState → Chunk
set_ghost_cell c storage_x storage_y state = record c {
  buffers =
      set_buffer c.current_buffer_index (write (index storage_x storage_y) state (current c))
        c.buffers;
}

-- The condition under which a neighbour counts.
abbrev pub counts : CellState → Bool
counts cell = cell.alive && not (cell.owner == 0)

-- `neighborsOwners[owner] += 1`, on a `std::map`: the keys stay sorted. At most eight cells are
-- counted, so no counter wraps.
unfoldable pub add_owner : ℕ → List (ℕ × ℕ) → List (ℕ × ℕ)
add_owner o [] = (o, 1) ∷ []
add_owner o ((k, n) ∷ m) =
    if ltb o k
    then (o, 1) ∷ (k, n) ∷ m
    else (if o == k then (k, n + 1) ∷ m else (k, n) ∷ add_owner o m)

pub record Tally : Type 0 where
  pub count : ℕ
  pub neighbors_owners : List (ℕ × ℕ)

unfoldable pub tally_cell : CellState → Tally → Tally
tally_cell cell t =
    if counts cell
    then record { count = t.count + 1; neighbors_owners = add_owner cell.owner t.neighbors_owners }
    else t

-- The loop that chooses `nextOwner`, in the order of the map's keys.
unfoldable pub choose_owner : List (ℕ × ℕ) → ℕ × ℕ → ℕ × ℕ
choose_owner [] next_owner = next_owner
choose_owner ((o, n) ∷ m) next_owner =
    choose_owner m (if leb next_owner.1 n then (o, n) else next_owner)

-- The two loops over dx and dy, which run from -1 to 1: `dx + 1` and `dy + 1` here.
unfoldable pub scan_neighbors : Buffer → ℕ → ℕ → Tally
unfolding upto tally_cell
scan_neighbors b sx sy =
    upto 3
      (λ dy t.
        upto 3
          (λ dx u.
            if dx == 1 && dy == 1 then u else tally_cell (b (index (sx + dx - 1) (sy + dy - 1))) u)
          t)
      (record { count = 0; neighbors_owners = [] })

unfoldable pub neighbor_alive_count : Buffer → ℕ → ℕ → ℕ × ℕ
neighbor_alive_count b sx sy =
    let t = scan_neighbors b sx sy in (t.count, (choose_owner t.neighbors_owners (0, 0)).0)

pub record Sweep : Type 0 where
  pub next : Buffer
  pub dirty_cells : List DirtyCell

-- The body of the loop of `calculateNext`.
unfoldable pub next_cell : Buffer → ℕ → ℕ → Sweep → Sweep
next_cell b y x s =
    let at = index (x + ghost_border) (y + ghost_border) in
    let current_cell = b at in
    let (neighbors, next_owner) = neighbor_alive_count b (x + ghost_border) (y + ghost_border) in
    let pushed = s.dirty_cells ++ (dirty_cell x y ∷ []) in
    let keep : Sweep = record {
      next = write at current_cell s.next;
      dirty_cells = s.dirty_cells;
    } in
    let die : Sweep = record { next = write at dead_cell s.next; dirty_cells = pushed } in
    let born : Sweep = record {
      next = write at (record { alive = true; owner = next_owner }) s.next;
      dirty_cells = pushed;
    } in
    if current_cell.alive
    then (if (ltb neighbors 2 || ltb 3 neighbors) && current_cell.alive then die else keep)
    else (if neighbors == 3 && not current_cell.alive then born else keep)

-- The loops over y and x. `b` is only read, `next` is only written.
unfoldable pub sweep : Buffer → Sweep → Sweep
sweep b = upto chunk_height (λ y. upto chunk_width (next_cell b y))

unfoldable pub calculate_next : Chunk → Chunk
calculate_next c =
    let swept = sweep (current c) (record {
      next = c.buffers (other_buffer c.current_buffer_index);
      dirty_cells = c.dirty_cells;
    }) in
    record c {
      buffers = set_buffer (other_buffer c.current_buffer_index) swept.next c.buffers;
      dirty_cells = swept.dirty_cells;
    }

unfoldable pub swap_buffers : Chunk → Chunk
swap_buffers c = record c { current_buffer_index = other_buffer c.current_buffer_index % 2 ^ 8 }

-- `counts[owner] += n` on a hash map from players to 64-bit counters.
abbrev pub or_zero : Option ℕ → ℕ
or_zero none = 0
or_zero (some k) = k

unfoldable pub add_count : ℕ → ℕ → List (ℕ × ℕ) → List (ℕ × ℕ)
add_count o n m = insert o ((or_zero (find o m) + n) % 2 ^ 64) m

unfoldable pub get_live_count_by_player : Chunk → List (ℕ × ℕ)
get_live_count_by_player c =
    upto chunk_height
      (λ y. upto chunk_width (λ x m.
        let cell = current c (index (x + ghost_border) (y + ghost_border)) in
        if counts cell then add_count cell.owner 1 m else m))
      []

unfoldable pub clear : Chunk → Chunk
clear c = record { current_buffer_index = 0; buffers = λ k i. dead_cell; dirty_cells = [] }

unfoldable pub is_dirty : Chunk → Bool
is_dirty c = elim c.dirty_cells [ [] ↦ false | d ∷ ds ↦ true ]

unfoldable pub clear_dirty : Chunk → Chunk
clear_dirty c = record c { dirty_cells = [] }
