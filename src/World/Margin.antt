-- ===== src/World/Margin.antt =====
-- server/src/World.cpp, `ensureSimulationMarginUnlocked`: every chunk with a live cell gets its eight
-- neighbours.
use multilife.Prelude.{
  ℕ, ◌<◌, ◌≡◌, refl, ◌≢◌, inl, inr, Bool, true, false, ◌&&◌, ◌==◌, if◌then◌else◌, Bool-cases,
  Option, none, some, Option-cases, List, [], In, In-append_left, In-append_right, arith, upto_once,
  upto_keep, each_once, each_keep,
}
use multilife.Prelude.Map.{find, find-insert, find-In}
use multilife.Types.{ChunkCoord, chunk_coord_eq, coord_eq, coord_eq_iff, chunk_width, chunk_height}
use multilife.Chunk
use multilife.Chunk.{Chunk, get_cell}
use multilife.Chunk.Cells.{Inside}
use multilife.World.{
  ChunkMap, neighbor, has_live_cells, missing_neighbors, chunks_to_create, get_or_create_chunk,
  note_missing, note_entry, create, ensure_simulation_margin,
}

has_live_cells_lem :
    (c : Chunk) (x y : ℕ) → Inside x y → (get_cell c x y).alive ≡ true → has_live_cells c ≡ true
unfolding has_live_cells
has_live_cells_lem c x y h a =
    upto_once (λ b. b ≡ true) chunk_height _ false y h.1 (λ j b p. rw p)
      (λ b. elim (Bool-cases b) [
        | inl t ↦ rw t
        | inr f ↦ rw f (
            upto_once (λ (b : Bool). b ≡ true) chunk_width _ false x h.0 (λ j b p. rw p)
              (λ b. rw a (ground arith)))
      ])

note_missing-keep :
    (m : ChunkMap) (k n : ChunkCoord) (dy dx : ℕ) (acc : List ChunkCoord)
    → In n acc
    → In n (note_missing m k dy dx acc)
unfolding note_missing
note_missing-keep m k n dy dx acc h = elim (Bool-cases (dx == 1 && dy == 1)) [
  | inl own ↦ rw own h
  | inr other ↦ rw other (elim (Option-cases (find (neighbor k dx dy) m)) [
    | inl free ↦ rw (free, note_missing) (In-append_left n acc _ h)
    | inr (c, used) ↦ rw (used, note_missing) h
  ])
]

note_missing-add :
    (m : ChunkMap) (k : ChunkCoord) (dy dx : ℕ) (acc : List ChunkCoord)
    → (dx == 1 && dy == 1) ≡ false
    → find (neighbor k dx dy) m ≡ none
    → In (neighbor k dx dy) (note_missing m k dy dx acc)
unfolding note_missing
note_missing-add m k dy dx acc other free =
    rw (other, free, note_missing) (In-append_right (neighbor k dx dy) acc _ (inl refl))

-- The list only grows.
missing_neighbors-keep :
    (m : ChunkMap) (k n : ChunkCoord) (acc : List ChunkCoord)
    → In n acc
    → In n (missing_neighbors m k acc)
unfolding missing_neighbors
missing_neighbors-keep m k n acc h =
    upto_keep (In n) 3 _ acc h
      (λ dy t p. upto_keep (In n) 3 _ t p (λ dx u q. note_missing-keep m k n dy dx u q))

missing_neighbors-add :
    (m : ChunkMap) (k : ChunkCoord) (dx dy : ℕ) (acc : List ChunkCoord)
    → dx < 3
    → dy < 3
    → (dx == 1 && dy == 1) ≡ false
    → find (neighbor k dx dy) m ≡ none
    → In (neighbor k dx dy) (missing_neighbors m k acc)
unfolding missing_neighbors
missing_neighbors-add m k dx dy acc hx hy other free =
    let n = neighbor k dx dy in
    upto_once (In n) 3 _ acc dy hy
      (λ j t p. upto_keep (In n) 3 _ t p (λ i u q. note_missing-keep m k n j i u q))
      (λ t.
        upto_once (In n) 3 _ t dx hx (λ i u q. note_missing-keep m k n dy i u q)
          (λ u. note_missing-add m k dy dx u other free))

note_entry-keep :
    (m : ChunkMap) (n : ChunkCoord) (entry : ChunkCoord × Chunk) (acc : List ChunkCoord)
    → In n acc
    → In n (note_entry m entry acc)
unfolding note_entry
note_entry-keep m n entry acc h = elim (Bool-cases (has_live_cells entry.1)) [
  | inl live ↦ rw live (missing_neighbors-keep m entry.0 n acc h)
  | inr idle ↦ rw idle h
]

-- A live chunk puts each of its neighbours that is not there on the list.
chunks_to_create-add :
    (m : ChunkMap) (k : ChunkCoord) (c : Chunk) (dx dy : ℕ)
    → find k m ≡ some c
    → has_live_cells c ≡ true
    → dx < 3
    → dy < 3
    → (dx == 1 && dy == 1) ≡ false
    → find (neighbor k dx dy) m ≡ none
    → In (neighbor k dx dy) (chunks_to_create m)
unfolding chunks_to_create note_entry
chunks_to_create-add m k c dx dy here live hx hy other free =
    each_once (In (neighbor k dx dy)) m (note_entry m) [] (k, c) (find-In k c m here)
      (λ entry acc h. note_entry-keep m (neighbor k dx dy) entry acc h)
      (λ acc. rw live (missing_neighbors-add m k dx dy acc hx hy other free))

abbrev Present : ChunkCoord → ChunkMap → Type 0
Present k m = find k m ≢ none

-- What a look-up sees after the creation of the chunk at `k`.
pub find-create :
    (k j : ChunkCoord) (m : ChunkMap)
    → find j (create k m)
      ≡ (elim (find j m) [ none ↦ if coord_eq k j then some Chunk.new else none | some c ↦ some c ])
unfolding create get_or_create_chunk
find-create k j m = elim (Option-cases (find k m)) [
  | inl free ↦ rw (free, create) (rw find-insert (ground (arith, free, coord_eq_iff k j)))
  | inr (c, used) ↦ rw (used, create) (ground (arith, used, coord_eq_iff k j))
]

create-Present_self : (k : ChunkCoord) (m : ChunkMap) → Present k (create k m)
create-Present_self k m = ground (arith, find-create k k m, coord_eq_iff k k)

create-Present : (k j : ChunkCoord) (m : ChunkMap) → Present j m → Present j (create k m)
create-Present k j m p = ground (arith, find-create k j m)

-- `m` has the chunks of `m0`, and perhaps new ones.
pub data Grown : Option Chunk → Option Chunk → Type 0 where
  kept : {o p : Option Chunk} → p ≡ o → Grown o p
  made : {o p : Option Chunk} → o ≡ none → p ≡ some Chunk.new → Grown o p

create-Grown :
    (m0 : ChunkMap) (k j : ChunkCoord) (m : ChunkMap)
    → Grown (find j m0) (find j m)
    → Grown (find j m0) (find j (create k m))
create-Grown m0 k j m (kept e) = elim (Option-cases (find j m)) [
  | inl free ↦ elim (Bool-cases (coord_eq k j)) [
    | inl hit ↦ made (cc (e, free)) (ground (arith, find-create k j m))
    | inr miss ↦ kept (ground (arith, find-create k j m))
  ]
  | inr (c, used) ↦ kept (ground (arith, find-create k j m))
]
create-Grown m0 k j m (made e f) = made e (ground (arith, find-create k j m))

-- The margin keeps every chunk, and adds only new, dead ones.
pub ensure_simulation_margin-Grown :
    (m : ChunkMap) (j : ChunkCoord) → Grown (find j m) (find j (ensure_simulation_margin m))
unfolding ensure_simulation_margin
ensure_simulation_margin-Grown m j =
    each_keep (λ t. Grown (find j m) (find j t)) (chunks_to_create m) create m (kept refl)
      (λ k t g. create-Grown m k j t g)

-- After `ensureSimulationMarginUnlocked` a chunk that has a live cell has all its neighbours.
pub neighbor-Present :
    (m : ChunkMap) (k : ChunkCoord) (c : Chunk) (x y dx dy : ℕ)
    → find k m ≡ some c
    → Inside x y
    → (get_cell c x y).alive ≡ true
    → dx < 3
    → dy < 3
    → (dx == 1 && dy == 1) ≡ false
    → find (neighbor k dx dy) (ensure_simulation_margin m) ≢ none
unfolding ensure_simulation_margin
neighbor-Present m k c x y dx dy here h a hx hy other =
    let n = neighbor k dx dy in
    elim (Option-cases (find n m)) [
      | inl free ↦
          each_once (Present n) (chunks_to_create m) create m n
            (chunks_to_create-add m k c dx dy here (has_live_cells_lem c x y h a) hx hy other free)
            (λ j t p. create-Present j n t p) (λ t. create-Present_self n t)
      | inr (d, used) ↦
          each_keep (Present n) (chunks_to_create m) create m (λ e. cc (e, used))
            (λ j t p. create-Present j n t p)
    ]
