-- ===== src/World/Range.antt =====
-- server/src/World.cpp, `ensureSimulationMarginUnlocked` and `exchangeBorders`: the coordinates of chunks are `int`s,
-- and a sum that leaves their range is undefined. The model adds without bounds, which is the same where
-- no sum leaves the range.
use multilife.Prelude.{
  ℕ, suc, ◌+◌, ◌^◌, ◌≤◌, ◌<◌, ◌≡◌, ◌≢◌, true, false, ◌&&◌, ◌==◌, inl, inr, Bool-cases, Option-cases,
  none, some, List, [], ◌∷◌, All, All-append, each, upto_inv, In, arith,
}
use multilife.Prelude.Int.{ℤ, pos_part, neg_part, ◌+ℤ◌, +ℤ_parts}
use multilife.Prelude.Map.{find, find-In, insert}
use multilife.Types.{ChunkCoord, chunk_coord_eq, coord_eq}
use multilife.Chunk.{Chunk, get_cell}
use multilife.Chunk.Cells.{Inside}
use multilife.World.{
  ChunkMap, neighbor, offset, has_live_cells, note_missing, missing_neighbors, note_entry,
  chunks_to_create, get_or_create_chunk, create, ensure_simulation_margin,
}
use multilife.World.Margin.{neighbor-Present}

-- A number from which `d` can be added or taken within an `int`.
abbrev pub HasRoom : ℕ → ℤ → Type 0
HasRoom d z = (pos_part z + d < 2 ^ 31) × (neg_part z + d ≤ 2 ^ 31)

abbrev pub IsWithin : ℕ → ChunkCoord → Type 0
IsWithin d k = HasRoom d k.x × HasRoom d k.y

-- So for every chunk of a world.
abbrev pub AllWithin : ℕ → ChunkMap → Type 0
AllWithin d m = All (λ entry. IsWithin d entry.0) m

HasRoom-offset : (d : ℕ) (z : ℤ) (k : ℕ) → k < 3 → HasRoom (suc d) z → HasRoom d (z +ℤ offset k)
HasRoom-offset d z k lt h = ground (arith, +ℤ_parts z (offset k))

pub neighbor-IsWithin :
    (d : ℕ) (k : ChunkCoord) (dx dy : ℕ)
    → dx < 3
    → dy < 3
    → IsWithin (suc d) k
    → IsWithin d (neighbor k dx dy)
neighbor-IsWithin d k dx dy hx hy h =
    (HasRoom-offset d k.x dx hx h.0, HasRoom-offset d k.y dy hy h.1)

module _ (d : ℕ) where
  abbrev Listed : List ChunkCoord → Type 0
  Listed = All (IsWithin d)

  note_missing-Listed :
      (m : ChunkMap) (k : ChunkCoord) (dy dx : ℕ) (acc : List ChunkCoord)
      → IsWithin d (neighbor k dx dy)
      → Listed acc
      → Listed (note_missing m k dy dx acc)
  unfolding note_missing
  note_missing-Listed m k dy dx acc new h = elim (Bool-cases (dx == 1 && dy == 1)) [
    | inl own ↦ rw own h
    | inr other ↦ rw other (elim (Option-cases (find (neighbor k dx dy) m)) [
      | inl free ↦ rw (free, note_missing) (All-append (IsWithin d) acc _ h (new, tt))
      | inr (c, used) ↦ rw (used, note_missing) h
    ])
  ]

  missing_neighbors-Listed :
      (m : ChunkMap) (k : ChunkCoord) (acc : List ChunkCoord)
      → IsWithin (suc d) k
      → Listed acc
      → Listed (missing_neighbors m k acc)
  unfolding missing_neighbors
  missing_neighbors-Listed m k acc room h =
      upto_inv (λ i. Listed) 3 _ acc h
        (λ dy t ly p.
          upto_inv (λ i. Listed) 3 _ t p
            (λ dx u lx q.
              note_missing-Listed m k dy dx u (neighbor-IsWithin d k dx dy lx ly room) q))

  note_entries-Listed :
      (m entries : ChunkMap) (acc : List ChunkCoord)
      → AllWithin (suc d) entries
      → Listed acc
      → Listed (each entries (note_entry m) acc)
  unfolding each note_entry
  note_entries-Listed m [] acc room h = h
  note_entries-Listed m ((k, c) ∷ entries) acc room h =
      note_entries-Listed m entries _ room.1 (elim (Bool-cases (has_live_cells c)) [
        | inl live ↦ rw live (missing_neighbors-Listed m k acc room.0 h)
        | inr idle ↦ rw idle h
      ])

  AllWithin-insert :
      (k : ChunkCoord) (c : Chunk) (m : ChunkMap)
      → IsWithin d k
      → AllWithin d m
      → AllWithin d (insert k c m)
  unfolding insert
  AllWithin-insert k c [] room h = (room, tt)
  AllWithin-insert k c ((j, b) ∷ m) room h = elim (Bool-cases (coord_eq j k)) [
    | inl hit ↦ rw hit (h.0, h.1)
    | inr miss ↦ rw miss (h.0, AllWithin-insert k c m room h.1)
  ]

  create-AllWithin :
      (k : ChunkCoord) (m : ChunkMap) → IsWithin d k → AllWithin d m → AllWithin d (create k m)
  unfolding create get_or_create_chunk
  create-AllWithin k m room h = elim (Option-cases (find k m)) [
    | inl free ↦ rw (free, create) (AllWithin-insert k _ m room h)
    | inr (c, used) ↦ rw (used, create) h
  ]

  created-AllWithin :
      (ks : List ChunkCoord) (m : ChunkMap)
      → Listed ks
      → AllWithin d m
      → AllWithin d (each ks create m)
  unfolding each
  created-AllWithin [] m room h = h
  created-AllWithin (k ∷ ks) m room h =
      created-AllWithin ks (create k m) room.1 (create-AllWithin k m room.0 h)

  AllWithin-less : (m : ChunkMap) → AllWithin (suc d) m → AllWithin d m
  AllWithin-less [] h = tt
  AllWithin-less ((k, c) ∷ m) h = (omega arith, AllWithin-less m h.1)

  -- The margin takes one step of the room that there is.
  pub ensure_simulation_margin-AllWithin :
      (m : ChunkMap) → AllWithin (suc d) m → AllWithin d (ensure_simulation_margin m)
  unfolding ensure_simulation_margin chunks_to_create
  ensure_simulation_margin-AllWithin m h =
      created-AllWithin (each m (note_entry m) []) m (note_entries-Listed m m [] h tt)
        (AllWithin-less m h)

In-IsWithin :
    (d : ℕ) (k : ChunkCoord) (c : Chunk) (m : ChunkMap) → AllWithin d m → In (k, c) m → IsWithin d k
In-IsWithin d k c [] h i = elim i [ ]
In-IsWithin d k c ((j, b) ∷ m) h (inl same) = let q : k ≡ j = λ i. (same i).0 in rw q h.0
In-IsWithin d k c (entry ∷ m) h (inr i) = In-IsWithin d k c m h.1 i

-- Where no chunk of the world lies at the end of the range of an `int`, `ensureSimulationMarginUnlocked`
-- gives a chunk that has a live cell each of its neighbours, and the coordinates of all chunks after it
-- fit an `int`.
pub ensure_simulation_margin-Present :
    (m : ChunkMap) (k : ChunkCoord) (c : Chunk) (x y dx dy : ℕ)
    → AllWithin 1 m
    → find k m ≡ some c
    → Inside x y
    → (get_cell c x y).alive ≡ true
    → dx < 3
    → dy < 3
    → (dx == 1 && dy == 1) ≡ false
    → (find (neighbor k dx dy) (ensure_simulation_margin m) ≢ none)
      × IsWithin 0 (neighbor k dx dy)
      × AllWithin 0 (ensure_simulation_margin m)
ensure_simulation_margin-Present m k c x y dx dy room here h a hx hy other = (
  neighbor-Present m k c x y dx dy here h a hx hy other,
  neighbor-IsWithin 0 k dx dy hx hy (In-IsWithin 1 k c m room (find-In k c m here)),
  ensure_simulation_margin-AllWithin 0 m room,
)
