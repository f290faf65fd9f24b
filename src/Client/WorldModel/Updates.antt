-- ===== src/Client/WorldModel/Updates.antt =====
-- client/src/WorldModel.cpp, `applyUpdate`: what an update does to each cell of the grid.
use multilife.Prelude.{
  ℕ, ◌≡◌, refl, ◌∙◌, Bool, true, false, ◌&&◌, ◌==◌, if◌then◌else◌, inl, inr, Bool-cases, List, [],
  ◌∷◌, each, Option, none, some, ==_iff, arith,
}
use multilife.Prelude.Int.{ℤ, pos, negsuc, ◌+ℤ◌, ◌-ℤ◌, ◌==ℤ◌, scale, tdiv, +ℤ_parts, -ℤ_parts}
use multilife.Types.{ChunkCoord, coord_eq, chunk_coord_eq}
use multilife.World.Coordinates.{floor_div, chunk_at}
use multilife.Client.WorldModel
use multilife.Prelude.Map.{find, find-insert, find-erase}
use multilife.Chunk.{or_zero}
use multilife.Client.WorldModel.{
  CellKey, key_eq, key_eq_iff, cell_key_eq, AliveCell, AliveCells, WorldModel, in_chunk,
  erase_chunk, key_of, apply_cell, apply_update, owner_at,
}

-- The owner that a list of updates leaves at a cell: that of the last update of the cell, or else the
-- owner before.
unfoldable pub owner_after : ℤ → ℤ → List AliveCell → CellKey → ℕ → ℕ
owner_after chunk_x chunk_y [] key owner = owner
owner_after chunk_x chunk_y (u ∷ us) key owner =
    owner_after chunk_x chunk_y us key
      (if key_eq (key_of chunk_x chunk_y u) key then u.owner else owner)

owner_of : CellKey → AliveCells → ℕ
owner_of key cells = or_zero (find key cells)

or_zero_if :
    (b : Bool) (o p : Option ℕ)
    → or_zero (if b then o else p) ≡ (if b then or_zero o else or_zero p)
or_zero_if true o p = refl
or_zero_if false o p = refl

owner_of-apply_cell :
    (chunk_x chunk_y : ℤ) (u : AliveCell) (cells : AliveCells) (key : CellKey)
    → owner_of key (apply_cell chunk_x chunk_y u cells)
      ≡ (if key_eq (key_of chunk_x chunk_y u) key then u.owner else owner_of key cells)
unfolding owner_of apply_cell
owner_of-apply_cell chunk_x chunk_y u cells key = elim (Bool-cases (u.owner == 0)) [
  | inl gone ↦
      rw (gone, (==_iff u.owner 0).0 gone, find-erase)
        (or_zero_if (key_eq (key_of chunk_x chunk_y u) key) none (find key cells))
  | inr owned ↦
      rw (owned, find-insert)
        (or_zero_if (key_eq (key_of chunk_x chunk_y u) key) (some u.owner) (find key cells))
]

owner_of-erase_chunk :
    (chunk_x chunk_y : ℤ) (cells : AliveCells) (key : CellKey)
    → owner_of key (erase_chunk chunk_x chunk_y cells)
      ≡ (if in_chunk chunk_x chunk_y key then 0 else owner_of key cells)
unfolding owner_of erase_chunk find
owner_of-erase_chunk chunk_x chunk_y [] key = ground arith
owner_of-erase_chunk chunk_x chunk_y ((k, o) ∷ cells) key =
    let rest = owner_of-erase_chunk chunk_x chunk_y cells key in
    elim (Bool-cases (in_chunk chunk_x chunk_y k)) [
      | inl inside ↦ elim (Bool-cases (key_eq k key)) [
        | inl same ↦
            let q = (key_eq_iff k key).0 same in rw inside (rest ∙ ground (arith, inside, q))
        | inr other ↦ rw (inside, other) rest
      ]
      | inr outside ↦ elim (Bool-cases (key_eq k key)) [
        | inl same ↦
            let q = (key_eq_iff k key).0 same in rw (outside, same) (ground (arith, outside, q))
        | inr other ↦ rw (outside, other) rest
      ]
    ]

owner_of-each :
    (chunk_x chunk_y : ℤ) (us : List AliveCell) (cells : AliveCells) (key : CellKey)
    → owner_of key (each us (apply_cell chunk_x chunk_y) cells)
      ≡ owner_after chunk_x chunk_y us key (owner_of key cells)
unfolding each owner_after
owner_of-each chunk_x chunk_y [] cells key = refl
owner_of-each chunk_x chunk_y (u ∷ us) cells key = rw (
  owner_of-each chunk_x chunk_y us (apply_cell chunk_x chunk_y u cells) key,
  owner_of-apply_cell chunk_x chunk_y u cells key,
)

-- The same by the keys of the code.
pub owner_at-applied :
    (seq_num : ℕ) (full : Bool) (chunk_x chunk_y : ℤ) (us : List AliveCell) (m : WorldModel)
    (x y : ℤ)
    → owner_at (apply_update seq_num full chunk_x chunk_y us m) x y
      ≡ owner_after chunk_x chunk_y us
          (record { x = x; y = y })
          (if full && in_chunk chunk_x chunk_y (record { x = x; y = y }) then 0 else owner_at m x y)
unfolding owner_at apply_update owner_of
owner_at-applied seq_num true chunk_x chunk_y us m x y =
    owner_of-each chunk_x chunk_y us (erase_chunk chunk_x chunk_y m.alive_cells) _
    ∙ rw (owner_of-erase_chunk chunk_x chunk_y m.alive_cells (record { x = x; y = y }))
owner_at-applied seq_num false chunk_x chunk_y us m x y =
    owner_of-each chunk_x chunk_y us m.alive_cells _

-- The entry stands for the cell (x, y) of the grid: its place in the chunk is what is left of the cell's
-- coordinates without 64 times the chunk's.
abbrev pub names : ℤ → ℤ → AliveCell → ℤ → ℤ → Bool
names chunk_x chunk_y u x y = u.x ==ℤ (x -ℤ scale 64 chunk_x) && u.y ==ℤ (y -ℤ scale 64 chunk_y)

-- The owner by the last entry that stands for a cell, or else the owner before.
unfoldable pub last_owner : ℤ → ℤ → List AliveCell → ℤ → ℤ → ℕ → ℕ
last_owner chunk_x chunk_y [] x y owner = owner
last_owner chunk_x chunk_y (u ∷ us) x y owner =
    last_owner chunk_x chunk_y us x y (if names chunk_x chunk_y u x y then u.owner else owner)

key_eq-key_of :
    (chunk_x chunk_y : ℤ) (u : AliveCell) (x y : ℤ)
    → key_eq (key_of chunk_x chunk_y u) (record { x = x; y = y }) ≡ names chunk_x chunk_y u x y
key_eq-key_of chunk_x chunk_y u x y = ground (
  arith,
  +ℤ_parts (scale 64 chunk_x) u.x,
  +ℤ_parts (scale 64 chunk_y) u.y,
  -ℤ_parts x (scale 64 chunk_x),
  -ℤ_parts y (scale 64 chunk_y),
)

owner_after-last_owner :
    (chunk_x chunk_y : ℤ) (us : List AliveCell) (x y : ℤ) (owner : ℕ)
    → owner_after chunk_x chunk_y us (record { x = x; y = y }) owner
      ≡ last_owner chunk_x chunk_y us x y owner
unfolding owner_after last_owner
owner_after-last_owner chunk_x chunk_y [] x y owner = refl
owner_after-last_owner chunk_x chunk_y (u ∷ us) x y owner =
    rw (key_eq-key_of chunk_x chunk_y u x y) (owner_after-last_owner chunk_x chunk_y us x y _)

floor_div-same : (g : ℤ) → WorldModel.floor_div g 64 ≡ floor_div g
unfolding WorldModel.floor_div tdiv ◌+ℤ◌ ◌-ℤ◌
floor_div-same (pos n) = refl
floor_div-same (negsuc n) = ground arith

-- The client and the server agree on the chunk of a cell.
pub in_chunk-coord_eq :
    (k : ChunkCoord) (x y : ℤ)
    → in_chunk k.x k.y (record { x = x; y = y }) ≡ coord_eq (chunk_at x y) k
unfolding in_chunk
in_chunk-coord_eq k x y = rw (floor_div-same x, floor_div-same y)

-- After an update of a chunk each cell of the grid has the owner of the last entry that stands for it. A
-- cell without an entry keeps its owner, but has none after a full update if it lies in the chunk, by
-- division of its coordinates by 64 towards minus infinity.
pub owner_at-apply_update :
    (seq_num : ℕ) (full : Bool) (chunk : ChunkCoord) (us : List AliveCell) (m : WorldModel)
    (x y : ℤ)
    → owner_at (apply_update seq_num full chunk.x chunk.y us m) x y
      ≡ last_owner chunk.x chunk.y us x y
          (if full && coord_eq (chunk_at x y) chunk then 0 else owner_at m x y)
owner_at-apply_update seq_num full chunk us m x y =
    owner_at-applied seq_num full chunk.x chunk.y us m x y
    ∙ (owner_after-last_owner chunk.x chunk.y us x y _ ∙ rw (in_chunk-coord_eq chunk x y))
