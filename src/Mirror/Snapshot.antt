-- ===== src/Mirror/Snapshot.antt =====
-- server/src/GameServer.cpp, `getFullSnapshotForSeq`, and the client's end of it: what a client has after a
-- snapshot.
use mathlib.Core.Path.{subst}
use multilife.Prelude.{
  ℕ, ◌≡◌, ◌≤◌, refl, sym, ◌∙◌, ap, false, inl, inr, Bool-cases, List, [], ◌∷◌, map, length, each,
  All, In, Option, none, some,
}
use multilife.Prelude.Int.{ℤ}
use multilife.Prelude.Map.{find}
use multilife.Types.{ChunkCoord, CellState, dead_cell, coord_eq, coord_eq_iff, chunk_coord_eq}
use multilife.Chunk.{Chunk, get_cell}
use multilife.World.{ChunkMap, read_or_dead}
use multilife.World.Exchange.{read-some}
use multilife.World.Coordinates.{floor_mod, floor_mod-lt, floor_div_lem, chunk_at, cell_at}
use multilife.Wire.{flag_full}
use multilife.Serializer.{Entry, live_entries}
use multilife.Serializer.Packets.{update_of}
use multilife.Serializer.Payload.{groups, chunk_packets, packets_of, full_packets}
use multilife.Client.WorldModel.{WorldModel, owner_at, key_of}
use multilife.GameServer.Invariant.{AllOwned}
use multilife.Mirror.{HasOneEach}
use multilife.Mirror.Live.{live_entry, IsLive, live_entries-IsLive, live_entries-In}
use multilife.Mirror.Updates.{
  told, apply_packets, apply_packets-append, owner_after-kept, owner_after-told, at,
}
use multilife.Mirror.Truth.{owner_in, cell_at-join, find-HasOneEach}
use multilife.Mirror.Full.{owner_at-full}
use multilife.Chunk.Cells.{Inside}

told_live : (c : Chunk) (x y : ℕ) → (told (live_entry c x y)).owner ≡ (get_cell c x y).owner
unfolding update_of
told_live c x y = refl

module _ (m : ChunkMap) (k : ChunkCoord) (c : Chunk) (here : find k m ≡ some c) where
  live_true : (e : Entry) → IsLive c e → (told e).owner ≡ owner_in m (key_of k.x k.y (told e))
  unfolding update_of
  live_true e h =
      let same = cell_at-join m k c here e.x e.y h.inside in
      ap (λ z. (told z).owner) h.entry
      ∙ (told_live c e.x e.y ∙ ap (λ (s : CellState). s.owner) (sym same))

  all_true :
      (es : List Entry)
      → All (IsLive c) es
      → All (λ u. u.owner ≡ owner_in m (key_of k.x k.y u)) (map told es)
  all_true [] h = tt
  all_true (e ∷ es) h = (live_true e h.0, all_true es h.1)

In-map-told : (e : Entry) (es : List Entry) → In e es → In (told e) (map told es)
In-map-told e [] i = elim i [ ]
In-map-told e (d ∷ es) (inl same) = inl (ap told same)
In-map-told e (d ∷ es) (inr i) = inr (In-map-told e es i)

key_of-live_entry :
    (c : Chunk) (x y : ℤ)
    → key_of (chunk_at x y).x (chunk_at x y).y (told (live_entry c (floor_mod x) (floor_mod y)))
      ≡ at x y
unfolding update_of
key_of-live_entry c x y = rw (floor_div_lem x, floor_div_lem y)

cell_at-some :
    (m : ChunkMap) (x y : ℤ) (c : Chunk)
    → find (chunk_at x y) m ≡ some c
    → cell_at m x y ≡ get_cell c (floor_mod x) (floor_mod y)
unfolding cell_at
cell_at-some m x y c here = read-some (find (chunk_at x y) m) c (floor_mod x) (floor_mod y) here

cell_at-none : (m : ChunkMap) (x y : ℤ) → find (chunk_at x y) m ≡ none → cell_at m x y ≡ dead_cell
unfolding cell_at read_or_dead
cell_at-none m x y free = rw free

no_entry : (c : Chunk) (x y : ℕ) → Inside x y → live_entries c ≡ [] → (get_cell c x y).alive ≡ false
no_entry c x y h l = elim (Bool-cases (get_cell c x y).alive) [
  | inl on ↦ elim (subst (In (live_entry c x y)) l (live_entries-In c x y h on)) [ ]
  | inr off ↦ off
]

-- What a snapshot has for the chunk of a cell.
unfoldable pub entries_of : Option Chunk → List Entry
entries_of none = []
entries_of (some c) = live_entries c

-- No chunk has more live cells than a packet has room for.
abbrev pub AllSmall : ChunkMap → Type 0
AllSmall m = (k : ChunkCoord) (c : Chunk) → find k m ≡ some c → length (live_entries c) ≤ 125

module _ (m : ChunkMap) (owned : AllOwned m) (small : AllSmall m) (n : ℕ) (x y : ℤ) where
  -- Part of the map.
  abbrev PartOf : ChunkMap → Type 0
  PartOf p = (k : ChunkCoord) (c : Chunk) → In (k, c) p → find k m ≡ some c

  abbrev IsRight : WorldModel → Type 0
  IsRight w = owner_at w x y ≡ owner_in m (at x y)

  -- The packet of the cell's own chunk, whatever the client had.
  own_chunk :
      (c : Chunk) (w : WorldModel) (e : Entry) (es : List Entry)
      → find (chunk_at x y) m ≡ some c
      → live_entries c ≡ e ∷ es
      → IsRight (apply_packets (chunk_packets n flag_full (chunk_at x y) (e ∷ es)) w)
  own_chunk c w e es here l =
      let k = chunk_at x y in
      let truth = all_true m k c here (e ∷ es) (subst (All (IsLive c)) l (live_entries-IsLive c)) in
      let read : cell_at m x y ≡ get_cell c (floor_mod x) (floor_mod y) =
        cell_at-some m x y c here in
      owner_at-full n k e es w x y (subst (λ (ls : List Entry). length ls ≤ 125) l (small k c here))
      ∙ elim (Bool-cases (get_cell c (floor_mod x) (floor_mod y)).alive) [
        | inl on ↦
            let i =
              live_entries-In c (floor_mod x) (floor_mod y) (floor_mod-lt x, floor_mod-lt y) on in
            owner_after-told k.x k.y (at x y) (owner_in m) (map told (e ∷ es)) _
              (told (live_entry c (floor_mod x) (floor_mod y))) truth
              (In-map-told _ (e ∷ es) (subst (In (live_entry c (floor_mod x) (floor_mod y))) l i))
              (key_of-live_entry c x y)
        | inr off ↦ owner_after-kept k.x k.y (at x y) (owner_in m) (map told (e ∷ es)) _ truth (
            let hit = (coord_eq_iff k k).1 refl in
            rw hit (sym ((owned x y).0 (ap (λ (s : CellState). s.alive) read ∙ off))))
      ]

  other_chunk :
      (k : ChunkCoord) (c : Chunk) (w : WorldModel) (e : Entry) (es : List Entry)
      → find k m ≡ some c
      → live_entries c ≡ e ∷ es
      → coord_eq (chunk_at x y) k ≡ false
      → IsRight w
      → IsRight (apply_packets (chunk_packets n flag_full k (e ∷ es)) w)
  other_chunk k c w e es here l miss right =
      owner_at-full n k e es w x y (subst (λ (ls : List Entry). length ls ≤ 125) l (small k c here))
      ∙ rw miss (
          owner_after-kept k.x k.y (at x y) (owner_in m) (map told (e ∷ es)) _
            (all_true m k c here (e ∷ es) (subst (All (IsLive c)) l (live_entries-IsLive c))) right)

  any_chunk :
      (k : ChunkCoord) (c : Chunk) (w : WorldModel) (es : List Entry)
      → find k m ≡ some c
      → live_entries c ≡ es
      → IsRight w
      → IsRight (apply_packets (chunk_packets n flag_full k es) w)
  unfolding packets_of groups apply_packets each
  any_chunk k c w [] here l right = right
  any_chunk k c w (e ∷ es) here l right = elim (Bool-cases (coord_eq (chunk_at x y) k)) [
    | inl hit ↦
        let q = (coord_eq_iff (chunk_at x y) k).0 hit in
        subst (λ j. IsRight (apply_packets (chunk_packets n flag_full j (e ∷ es)) w)) q
          (own_chunk c w e es (rw q here) l)
    | inr miss ↦ other_chunk k c w e es here l miss right
  ]

  kept-IsRight :
      (p : ChunkMap) (w : WorldModel)
      → PartOf p
      → IsRight w
      → IsRight (apply_packets (full_packets n p) w)
  unfolding full_packets
  kept-IsRight [] w part right = unfold apply_packets each in right
  kept-IsRight ((k, c) ∷ p) w part right =
      ap (λ v. owner_at v x y)
        (apply_packets-append (chunk_packets n flag_full k (live_entries c)) (full_packets n p) w)
      ∙ kept-IsRight p _ (λ j d i. part j d (inr i))
          (any_chunk k c w (live_entries c) (part k c (inl refl)) refl right)

  made-IsRight :
      (p : ChunkMap) (w : WorldModel) (c : Chunk) (e : Entry) (es : List Entry)
      → PartOf p
      → find (chunk_at x y) p ≡ some c
      → live_entries c ≡ e ∷ es
      → IsRight (apply_packets (full_packets n p) w)
  unfolding full_packets find
  made-IsRight [] w c e es part here l = cc (here)
  made-IsRight ((k, d) ∷ p) w c e es part here l =
      let there = part k d (inl refl) in
      ap (λ v. owner_at v x y)
        (apply_packets-append (chunk_packets n flag_full k (live_entries d)) (full_packets n p) w)
      ∙ elim (Bool-cases (coord_eq k (chunk_at x y))) [
        | inl hit ↦
            let q = (coord_eq_iff k (chunk_at x y)).0 hit in
            let f = rw hit at here in
            let same : d ≡ c = cc (f) in
            kept-IsRight p _ (λ j f i. part j f (inr i))
              (rw (same, l, q) (own_chunk c w e es (rw (← q, ← same) there) l))
        | inr miss ↦ made-IsRight p _ c e es (λ j f i. part j f (inr i)) (rw miss at here) l
      ]

  pub entries_of-IsRight :
      (o : Option Chunk) (es : List Entry) (w : WorldModel)
      → HasOneEach m
      → find (chunk_at x y) m ≡ o
      → entries_of o ≡ es
      → (es ≡ [] → owner_at w x y ≡ 0)
      → IsRight (apply_packets (full_packets n m) w)
  unfolding entries_of
  entries_of-IsRight none es w one here l blank =
      kept-IsRight m w (λ k c. find-HasOneEach m k c one)
        (blank (sym l) ∙ ap (λ (s : CellState). s.owner) (sym (cell_at-none m x y here)))
  entries_of-IsRight (some c) [] w one here l blank =
      kept-IsRight m w (λ k c. find-HasOneEach m k c one)
        (blank refl
          ∙ sym (
              (owned x y).0 (
                ap (λ (s : CellState). s.alive) (cell_at-some m x y c here)
                ∙ no_entry c (floor_mod x) (floor_mod y) (floor_mod-lt x, floor_mod-lt y) l)))
  entries_of-IsRight (some c) (e ∷ es) w one here l blank =
      made-IsRight m w c e es (λ k c. find-HasOneEach m k c one) here l

-- A client has no owner at a cell of a chunk of which the snapshot has nothing to tell.
abbrev pub HasNothingStale : WorldModel → ChunkMap → Type 0
HasNothingStale w m = (gx gy : ℤ) → entries_of (find (chunk_at gx gy) m) ≡ [] → owner_at w gx gy ≡ 0
