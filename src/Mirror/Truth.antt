-- ===== src/Mirror/Truth.antt =====
-- server/include/WorldSerializer.hpp: every entry of a delta tells the owner of its cell as the world has it,
-- and every marked cell has an entry.
use multilife.Prelude.{
  ℕ, ◌≡◌, ◌<◌, ◌%◌, ◌^◌, refl, sym, ◌∙◌, ap, inl, inr, Bool-cases, List, [], ◌∷◌, map, All, In,
  each, some, Option-cases, ◌⊎◌, arith,
}
use mathlib.Core.Path.{subst}
use multilife.Prelude.Int.{ℤ, pos, negsuc, scale, ◌+ℤ◌}
use multilife.Prelude.Map.{find}
use multilife.Types.{ChunkCoord, CellState, coord_eq, coord_eq_iff, chunk_coord_eq}
use multilife.Chunk.{Chunk, DirtyCell, dirty_cell, get_cell}
use multilife.Chunk.Cells.{Inside}
use multilife.World.{ChunkMap}
use multilife.World.Edits.{IsOwned}
use multilife.World.Exchange.{read-some}
use multilife.World.Coordinates.{
  floor_div, floor_mod, floor_mod-lt, floor_div_lem, chunk_at, cell_at,
}
use multilife.Serializer.{dirty_entry}
use multilife.Serializer.Packets.{update_of}
use multilife.Serializer.Payload.{delta_packets, chunk_packets}
use multilife.Client.WorldModel.{CellKey, WorldModel, owner_at, key_of}
use multilife.GameServer.Invariant.{AllOwned}
use multilife.Mirror.{HasOneEach, IsWithin, AllWithin, IsListed, IsMarked}
use multilife.Mirror.Updates.{
  told, apply_packets, apply_packets-append, owner_at-chunk_packets, owner_after-kept,
  owner_after-told, at,
}

floor_div-join : (a : ℤ) (n : ℕ) → n < 64 → floor_div (scale 64 a +ℤ pos n) ≡ a
unfolding scale ◌+ℤ◌
floor_div-join (pos a) n h = ground arith
floor_div-join (negsuc a) n h = ground arith

floor_mod-join : (a : ℤ) (n : ℕ) → n < 64 → floor_mod (scale 64 a +ℤ pos n) ≡ n
unfolding scale ◌+ℤ◌
floor_mod-join (pos a) n h = ground arith
floor_mod-join (negsuc a) n h = ground arith

-- The owner of the cell at a key.
abbrev pub owner_in : ChunkMap → CellKey → ℕ
owner_in m key = (cell_at m key.x key.y).owner

told_owner :
    (c : Chunk) (d : DirtyCell)
    → IsOwned (get_cell c d.x d.y)
    → (told (dirty_entry c d)).owner ≡ (get_cell c d.x d.y).owner
unfolding update_of dirty_entry
told_owner c d h = elim (Bool-cases (get_cell c d.x d.y).alive) [
  | inl alive ↦ rw alive
  | inr dead ↦ rw dead (sym (h.0 dead))
]

module _ (m : ChunkMap) (k : ChunkCoord) (c : Chunk) (here : find k m ≡ some c) where
  pub cell_at-join :
      (x y : ℕ)
      → Inside x y
      → cell_at m (scale 64 k.x +ℤ pos x) (scale 64 k.y +ℤ pos y) ≡ get_cell c x y
  unfolding cell_at
  cell_at-join x y h =
      rw
        (
          floor_div-join k.x x h.0,
          floor_div-join k.y y h.1,
          floor_mod-join k.x x h.0,
          floor_mod-join k.y y h.1,
        )
        (read-some (find k m) c x y here)

  entry_true :
      (d : DirtyCell)
      → AllOwned m
      → IsWithin d
      → (told (dirty_entry c d)).owner ≡ owner_in m (key_of k.x k.y (told (dirty_entry c d)))
  unfolding update_of dirty_entry
  entry_true d owned h =
      let same = cell_at-join d.x d.y h in
      told_owner c d (subst IsOwned same (owned _ _)) ∙ ap (λ (s : CellState). s.owner) (sym same)

  entries_true :
      (ds : List DirtyCell)
      → AllOwned m
      → All IsWithin ds
      → All (λ u. u.owner ≡ owner_in m (key_of k.x k.y u)) (map told (map (dirty_entry c) ds))
  entries_true [] owned h = tt
  entries_true (d ∷ ds) owned h = (entry_true d owned h.0, entries_true ds owned h.1)

In-told :
    (c : Chunk) (d : DirtyCell) (ds : List DirtyCell)
    → In d ds
    → In (told (dirty_entry c d)) (map told (map (dirty_entry c) ds))
In-told c d [] i = elim i [ ]
In-told c d (e ∷ ds) (inl same) = inl (ap (λ z. told (dirty_entry c z)) same)
In-told c d (e ∷ ds) (inr i) = inr (In-told c d ds i)

-- The client places the entry of a cell at the cell.
key_of-dirty_cell :
    (c : Chunk) (x y : ℤ)
    → key_of
        (chunk_at x y).x
        (chunk_at x y).y
        (told (dirty_entry c (dirty_cell (floor_mod x) (floor_mod y))))
      ≡ at x y
unfolding update_of dirty_entry
key_of-dirty_cell c x y =
    let a : floor_mod x % 2 ^ 8 ≡ floor_mod x = omega (arith, floor_mod-lt x) in
    let b : floor_mod y % 2 ^ 8 ≡ floor_mod y = omega (arith, floor_mod-lt y) in
    rw (a, b, floor_div_lem x, floor_div_lem y)

-- Entries of a map with one entry for each key are found.
pub find-HasOneEach :
    (m : ChunkMap) (k : ChunkCoord) (c : Chunk) → HasOneEach m → In (k, c) m → find k m ≡ some c
unfolding HasOneEach find
find-HasOneEach [] k c h i = elim i [ ]
find-HasOneEach ((j, d) ∷ m) k c h (inl e) =
    let same = (coord_eq_iff j k).1 (ap (λ (z : ChunkCoord × Chunk). z.0) (sym e)) in
    rw same (ap (λ (z : ChunkCoord × Chunk). some z.1) (sym e))
find-HasOneEach ((j, d) ∷ m) k c h (inr i) = elim (Bool-cases (coord_eq j k)) [
  | inl hit ↦
      let q = (coord_eq_iff j k).0 hit in
      let f = find-HasOneEach m k c h.1 i in let g = h.0 in cc (f, g, q)
  | inr miss ↦ rw miss (find-HasOneEach m k c h.1 i)
]

module _ (m : ChunkMap) (owned : AllOwned m) (within : AllWithin m) (seq_num : ℕ) (x y : ℤ) where
  -- Part of the map.
  abbrev PartOf : ChunkMap → Type 0
  PartOf p = (k : ChunkCoord) (c : Chunk) → In (k, c) p → find k m ≡ some c

  delta_kept :
      (p : ChunkMap) (w : WorldModel)
      → PartOf p
      → owner_at w x y ≡ owner_in m (at x y)
      → owner_at (apply_packets (delta_packets seq_num p) w) x y ≡ owner_in m (at x y)
  unfolding delta_packets apply_packets each
  delta_kept [] w part e = e
  delta_kept ((k, c) ∷ p) w part e =
      let here = part k c (inl refl) in
      ap (λ v. owner_at v x y)
        (apply_packets-append (chunk_packets seq_num _ k _) (delta_packets seq_num p) w)
      ∙ delta_kept p _ (λ j d i. part j d (inr i))
          (owner_at-chunk_packets seq_num k _ w x y
            ∙ owner_after-kept k.x k.y (at x y) (owner_in m) _ _
                (entries_true m k c here c.dirty_cells owned (within k c here)) e)

  delta_told :
      (p : ChunkMap) (w : WorldModel) (c : Chunk)
      → PartOf p
      → find (chunk_at x y) p ≡ some c
      → In (dirty_cell (floor_mod x) (floor_mod y)) c.dirty_cells
      → owner_at (apply_packets (delta_packets seq_num p) w) x y ≡ owner_in m (at x y)
  unfolding delta_packets apply_packets find
  delta_told [] w c part e i = cc (e)
  delta_told ((k, d) ∷ p) w c part e i =
      let here = part k d (inl refl) in
      ap (λ v. owner_at v x y)
        (apply_packets-append (chunk_packets seq_num _ k _) (delta_packets seq_num p) w)
      ∙ elim (Bool-cases (coord_eq k (chunk_at x y))) [
        | inl hit ↦
            let q = (coord_eq_iff k (chunk_at x y)).0 hit in
            let f = rw hit at e in
            let same : d ≡ c = cc (f) in
            delta_kept p _ (λ j f l. part j f (inr l))
              (owner_at-chunk_packets seq_num k _ w x y
                ∙ owner_after-told k.x k.y (at x y) (owner_in m) _ _
                    (told (dirty_entry d (dirty_cell (floor_mod x) (floor_mod y))))
                    (entries_true m k d here d.dirty_cells owned (within k d here))
                    (In-told d _ d.dirty_cells (rw same i)) (rw q (key_of-dirty_cell d x y)))
        | inr miss ↦ delta_told p _ c (λ j f l. part j f (inr l)) (rw miss at e) i
      ]

  -- The packets of a delta leave the client with the owner of the cell, if it had it before or the cell is
  -- marked.
  pub delta_mirrors :
      (w : WorldModel)
      → HasOneEach m
      → IsMarked m x y ⊎ (owner_at w x y ≡ owner_in m (at x y))
      → owner_at (apply_packets (delta_packets seq_num m) w) x y ≡ owner_in m (at x y)
  unfolding IsListed
  delta_mirrors w one (inr e) = delta_kept m w (λ k c. find-HasOneEach m k c one) e
  delta_mirrors w one (inl marked) = elim (Option-cases (find (chunk_at x y) m)) [
    | inl free ↦ absurd (subst (λ o. IsListed o (floor_mod x) (floor_mod y)) free marked)
    | inr (c, here) ↦
        delta_told m w c (λ k d. find-HasOneEach m k d one) here
          (subst (λ o. IsListed o (floor_mod x) (floor_mod y)) here marked)
  ]
