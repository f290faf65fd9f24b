-- ===== src/World/Exchange.antt =====
-- server/src/World.cpp, `exchangeBorders`: the loop over the map, which changes the chunks in place.
use multilife.Prelude.{
  ℕ, ◌-◌, ◌<◌, ◌≡◌, refl, ◌∙◌, sym, ◌⊎◌, inl, inr, true, false, ◌||◌, if◌then◌else◌, Bool-cases,
  Option, none, some, Option-cases, List, [], ◌∷◌, In, arith, each,
}
use mathlib.Core.Path.{subst}
use multilife.Prelude.Int.{◌+ℤ◌}
use multilife.Prelude.Map.{find, find-insert}
use multilife.Types.{ChunkCoord, CellState, chunk_coord_eq, coord_eq, coord_eq_iff}
use multilife.Chunk.{Chunk, get_cell, get_ghost_cell, total_width, total_height}
use multilife.Chunk.Cells.{Inside}
use multilife.World.{
  ChunkMap, neighbor, read_or_dead, set_borders, exchange_chunk, exchange_borders, coords,
  ensure_simulation_margin,
}
use multilife.World.Coordinates.{side, inner}
use multilife.World.Borders.{
  SameInside, set_borders-SameInside, get_ghost_cell-set_borders, source, on_border,
}

-- The cell at a storage position of the chunk at `k`, wherever in the map it lies.
unfoldable pub at_storage : ChunkMap → ChunkCoord → ℕ → ℕ → CellState
at_storage m k sx sy = read_or_dead (find (neighbor k (side sx) (side sy)) m) (inner sx) (inner sy)

-- `m` has the chunks of `m0`, with the same inner cells.
pub data SameChunk : Option Chunk → Option Chunk → Type 0 where
  neither : SameChunk none none
  both : {c d : Chunk} → SameInside c d → SameChunk (some c) (some d)

abbrev pub SameCells : ChunkMap → ChunkMap → Type 0
SameCells m0 m = (k : ChunkCoord) → SameChunk (find k m0) (find k m)

read-SameChunk :
    (o p : Option Chunk) (x y : ℕ)
    → SameChunk o p
    → Inside x y
    → read_or_dead p x y ≡ read_or_dead o x y
unfolding read_or_dead
read-SameChunk o p x y neither h = refl
read-SameChunk o p x y (both s) h = s.cells x y h

SameInside-trans : {c d f : Chunk} → SameInside c d → SameInside d f → SameInside c f
SameInside-trans p q = record {
  buffer = q.buffer ∙ p.buffer;
  dirty = q.dirty ∙ p.dirty;
  cells = λ x y h. q.cells x y h ∙ p.cells x y h;
}

SameChunk-change :
    (o p : Option Chunk) (c d : Chunk)
    → SameChunk o p
    → p ≡ some c
    → SameInside c d
    → SameChunk o (some d)
SameChunk-change o p c d neither e t = cc (e)
SameChunk-change o p c d (both {c = a} {d = b} s) e t =
    let q : c ≡ b = cc (e) in both (SameInside-trans s (subst (λ z. SameInside z d) q t))

abbrev HasBorder : ChunkMap → ChunkCoord → Chunk → Type 0
HasBorder m0 k c =
    (i j : ℕ)
    → i < total_width
    → j < total_height
    → (on_border i || on_border j) ≡ true
    → get_ghost_cell c i j ≡ at_storage m0 k i j

abbrev HasBorderAt : ChunkMap → ChunkMap → ChunkCoord → Type 0
HasBorderAt m0 m k = (c : Chunk) → find k m ≡ some c → HasBorder m0 k c

inner-Inside : (i j : ℕ) → i < total_width → j < total_height → Inside (inner i) (inner j)
inner-Inside i j hi hj = ground arith

set_borders-HasBorder :
    (m0 m : ChunkMap) (k : ChunkCoord) (c : Chunk)
    → SameCells m0 m
    → HasBorder m0 k (set_borders (λ dx dy. find (neighbor k dx dy) m) c)
unfolding at_storage source
set_borders-HasBorder m0 m k c s i j hi hj b =
    let (hx, hy) = inner-Inside i j hi hj in
    get_ghost_cell-set_borders _ c i j hi hj
    ∙ (ground (arith, b)
        ∙ read-SameChunk _ _ (inner i) (inner j) (s (neighbor k (side i) (side j))) (hx, hy))

SameCells-exchange_chunk :
    (m0 m : ChunkMap) (k : ChunkCoord) → SameCells m0 m → SameCells m0 (exchange_chunk k m)
unfolding exchange_chunk
SameCells-exchange_chunk m0 m k s j = elim (Option-cases (find k m)) [
  | inl none_here ↦ rw (none_here, exchange_chunk) (s j)
  | inr (c, here) ↦
      rw (here, exchange_chunk)
        (rw find-insert (elim (Bool-cases (coord_eq k j)) [
          | inl hit ↦ rw hit (
              SameChunk-change _ _ c _ (s j) (ground (arith, here, coord_eq_iff k j))
                (set_borders-SameInside _ c))
          | inr miss ↦ rw miss (s j)
        ]))
]

abbrev bordered : ChunkMap → ChunkCoord → Chunk → Chunk
bordered m k c = set_borders (λ dx dy. find (neighbor k dx dy) m) c

exchange_chunk-none : (m : ChunkMap) (k : ChunkCoord) → find k m ≡ none → exchange_chunk k m ≡ m
unfolding exchange_chunk
exchange_chunk-none m k e = rw (e, exchange_chunk)

find-exchange_chunk :
    (m : ChunkMap) (k j : ChunkCoord) (c : Chunk)
    → find k m ≡ some c
    → find j (exchange_chunk k m) ≡ (if coord_eq k j then some (bordered m k c) else find j m)
unfolding exchange_chunk
find-exchange_chunk m k j c e = rw (e, exchange_chunk) (find-insert k j (bordered m k c) m)

-- One round gives the chunk at `k` its border, and leaves the borders that are there.
HasBorder-exchange_chunk :
    (m0 m : ChunkMap) (k j : ChunkCoord)
    → SameCells m0 m
    → (j ≡ k) ⊎ HasBorderAt m0 m j
    → HasBorderAt m0 (exchange_chunk k m) j
HasBorder-exchange_chunk m0 m k j s h d e = elim (Option-cases (find k m)) [
  | inl none_here ↦
      let e' : find j m ≡ some d = cc (e, exchange_chunk-none m k none_here) in
      elim h [ inl same ↦ cc (e', none_here, same) | inr p ↦ p d e' ]
  | inr (c, here) ↦
      let f = find-exchange_chunk m k j c here in
      elim (Bool-cases (coord_eq k j)) [
        | inl hit ↦
            let same : k ≡ j = (coord_eq_iff k j).0 hit in
            let found : bordered m k c ≡ d = ground (arith, f, hit, e) in
            rw (← found) (rw (← same) (set_borders-HasBorder m0 m k c s))
        | inr miss ↦ elim h [
          | inl same ↦ cc (miss, (coord_eq_iff k j).1 (sym same))
          | inr p ↦ p d (ground (arith, f, miss, e))
        ]
      ]
]

each-exchange_chunk :
    (m0 : ChunkMap) (ks : List ChunkCoord) (m : ChunkMap)
    → SameCells m0 m
    → SameCells m0 (each ks exchange_chunk m)
      × ((j : ChunkCoord)
          → In j ks ⊎ HasBorderAt m0 m j
          → HasBorderAt m0 (each ks exchange_chunk m) j)
unfolding each
each-exchange_chunk m0 [] m s = (s, λ j. elim [ inl h ↦ elim h [ ] | inr h ↦ h ])
each-exchange_chunk m0 (k ∷ ks) m s =
    let step = each-exchange_chunk m0 ks (exchange_chunk k m) (SameCells-exchange_chunk m0 m k s) in
    (
      step.0,
      λ j. elim [
        | inl (inl now) ↦ step.1 j (inr (HasBorder-exchange_chunk m0 m k j s (inl now)))
        | inl (inr later) ↦ step.1 j (inl later)
        | inr old ↦ step.1 j (inr (HasBorder-exchange_chunk m0 m k j s (inr old)))
      ],
    )

SameInside-refl : (c : Chunk) → SameInside c c
SameInside-refl c = record { buffer = refl; dirty = refl; cells = λ x y h. refl }

SameChunk-refl : (o : Option Chunk) → SameChunk o o
SameChunk-refl none = neither
SameChunk-refl (some c) = both (SameInside-refl c)

find-coords : (m : ChunkMap) (k : ChunkCoord) (c : Chunk) → find k m ≡ some c → In k (coords m)
unfolding find
find-coords [] k c e = cc
find-coords ((j, d) ∷ m) k c e = elim (Bool-cases (coord_eq j k)) [
  | inl hit ↦ inl (sym ((coord_eq_iff j k).0 hit))
  | inr miss ↦ inr (find-coords m k c (ground arith))
]

-- After `exchangeBorders` the world has the chunks of the margin, with their inner cells.
pub exchange_borders-SameCells :
    (m : ChunkMap) → SameCells (ensure_simulation_margin m) (exchange_borders m)
unfolding exchange_borders
exchange_borders-SameCells m =
    let margin = ensure_simulation_margin m in
    (each-exchange_chunk margin (coords margin) margin (λ k. SameChunk-refl (find k margin))).0

exchange_borders-HasBorder :
    (m : ChunkMap) (k : ChunkCoord)
    → HasBorderAt (ensure_simulation_margin m) (exchange_borders m) k
unfolding exchange_borders
exchange_borders-HasBorder m k =
    let margin = ensure_simulation_margin m in
    elim (Option-cases (find k margin)) [
      | inl free ↦ λ c e. absurd (none_left _ _ c (exchange_borders-SameCells m k) free e)
      | inr (c, here) ↦
          (each-exchange_chunk margin (coords margin) margin
              (λ k. SameChunk-refl (find k margin))).1
            k (inl (find-coords margin k c here))
    ]
  where
    none_left : (o p : Option Chunk) (c : Chunk) → SameChunk o p → o ≡ none → p ≡ some c → ⊥
    none_left o p c neither e f = cc (f)
    none_left o p c (both s) e f = cc (e)

neighbor_self : (k : ChunkCoord) → neighbor k 1 1 ≡ k
unfolding ◌+ℤ◌
neighbor_self k = ground arith

inner_storage :
    (m : ChunkMap) (k : ChunkCoord) (i j : ℕ)
    → i < total_width
    → j < total_height
    → (on_border i || on_border j) ≡ false
    → (at_storage m k i j ≡ read_or_dead (find k m) (i - 1) (j - 1)) × Inside (i - 1) (j - 1)
unfolding at_storage
inner_storage m k i j hi hj b = (ground (arith, neighbor_self k), ground arith)

get_ghost_cell-get_cell :
    (c : Chunk) (i j : ℕ) → 0 < i → 0 < j → get_ghost_cell c i j ≡ get_cell c (i - 1) (j - 1)
unfolding get_cell get_ghost_cell
get_ghost_cell-get_cell c i j hi hj = ground arith

pub read-some :
    (o : Option Chunk) (c : Chunk) (x y : ℕ) → o ≡ some c → read_or_dead o x y ≡ get_cell c x y
unfolding read_or_dead
read-some o c x y e = rw e

-- After `exchangeBorders` every storage position of a chunk, ghost or not, holds the cell that lies
-- there in the world with its margin.
pub exchange_borders-stored :
    (m : ChunkMap) (k : ChunkCoord) (c : Chunk) (i j : ℕ)
    → find k (exchange_borders m) ≡ some c
    → i < total_width
    → j < total_height
    → get_ghost_cell c i j ≡ at_storage (ensure_simulation_margin m) k i j
exchange_borders-stored m k c i j e hi hj = elim (Bool-cases (on_border i || on_border j)) [
  | inl out ↦ exchange_borders-HasBorder m k c e i j hi hj out
  | inr in_side ↦
      let (there, inside) = inner_storage (ensure_simulation_margin m) k i j hi hj in_side in
      get_ghost_cell-get_cell c i j (ground arith) (ground arith)
      ∙ (sym (read-some _ c (i - 1) (j - 1) e)
          ∙ (read-SameChunk _ _ (i - 1) (j - 1) (exchange_borders-SameCells m k) inside
              ∙ sym there))
]
