-- ===== src/Chunk/Votes.antt =====
-- server/src/Chunk.cpp, `neighborAliveCount`: the eight neighbours as a list, their number, and
-- whose they are.
use multilife.Prelude.{
  ℕ, ◌+◌, ◌-◌, ◌≤◌, ◌<◌, ◌≡◌, refl, ◌⊎◌, inl, inr, true, false, leb, ◌==◌, if◌then◌else◌,
  Bool-cases, List, [], ◌∷◌, arith,
}
use multilife.Types.{CellState}
use multilife.Chunk.{
  Buffer, index, counts, Tally, add_owner, tally_cell, choose_owner, scan_neighbors,
  neighbor_alive_count,
}

-- The neighbours of the inner cell (x, y), in the order of the loops.
abbrev pub around : Buffer → ℕ → ℕ → List CellState
around b x y =
    b (index x y)
    ∷ b (index (x + 1) y)
    ∷ b (index (x + 2) y)
    ∷ b (index x (y + 1))
    ∷ b (index (x + 2) (y + 1))
    ∷ b (index x (y + 2))
    ∷ b (index (x + 1) (y + 2))
    ∷ b (index (x + 2) (y + 2))
    ∷ []

-- How many cells of a list are alive and owned, and how many of them belong to one owner.
unfoldable pub live_count : List CellState → ℕ
live_count [] = 0
live_count (c ∷ cs) = (if c.alive then (if c.owner == 0 then 0 else 1) else 0) + live_count cs

unfoldable pub votes : ℕ → List CellState → ℕ
votes o [] = 0
votes o (c ∷ cs) =
    (if c.alive then (if c.owner == 0 then 0 else (if c.owner == o then 1 else 0)) else 0)
    + votes o cs

tally : List CellState → Tally → Tally
tally [] t = t
tally (c ∷ cs) t = tally cs (tally_cell c t)

no_tally : Tally
no_tally = record { count = 0; neighbors_owners = [] }

minus_one : (x : ℕ) → x + 1 + 0 - 1 ≡ x
minus_one x = omega arith

stay : (x : ℕ) → x + 1 + 1 - 1 ≡ x + 1
stay x = omega arith

plus_one : (x : ℕ) → x + 1 + 2 - 1 ≡ x + 2
plus_one x = omega arith

scan-tally :
    (b : Buffer) (x y : ℕ) → scan_neighbors b (x + 1) (y + 1) ≡ tally (around b x y) no_tally
unfolding scan_neighbors tally no_tally
scan-tally b x y = simp (minus_one, stay, plus_one)

-- The entries of the owners' map, by key.
entry : ℕ → List (ℕ × ℕ) → ℕ
entry o [] = 0
entry o ((k, n) ∷ m) = (if k == o then n else 0) + entry o m

-- The keys are above `lo` and rise.
abbrev Rising : ℕ → List (ℕ × ℕ) → Type 0
Rising lo [] = Unit {0}
Rising lo ((k, n) ∷ m) = (lo < k) × Rising k m

entry-add_owner :
    (o p : ℕ) (m : List (ℕ × ℕ)) → entry p (add_owner o m) ≡ (if o == p then 1 else 0) + entry p m
unfolding entry add_owner
entry-add_owner o p [] = ground arith
entry-add_owner o p ((k, n) ∷ m) = ground (arith, entry-add_owner o p m)

add_owner-Rising : (lo o : ℕ) (m : List (ℕ × ℕ)) → lo < o → Rising lo m → Rising lo (add_owner o m)
unfolding add_owner
add_owner-Rising lo o [] h r = (h, tt)
add_owner-Rising lo o ((k, n) ∷ m) h r = ground (arith, add_owner-Rising k o m)

entry_below : (lo o : ℕ) (m : List (ℕ × ℕ)) → Rising lo m → o ≤ lo → entry o m ≡ 0
unfolding entry
entry_below lo o [] r h = refl
entry_below lo o ((k, n) ∷ m) r h = ground (arith, entry_below k o m)

-- What the loop of `nextOwner` ends with: the largest entry, of the largest key among equals.
record Chosen (best : ℕ × ℕ) (m : List (ℕ × ℕ)) (r : ℕ × ℕ) : Type 0 where
  grown : (best.1 ≤ r.1) × (best.0 ≤ r.0)
  most : (p : ℕ) → entry p m ≤ r.1
  latest : (p : ℕ) → 0 < entry p m → entry p m ≡ r.1 → p ≤ r.0
  origin : (r ≡ best) ⊎ (entry r.0 m ≡ r.1)

Rising-mono : (lo hi : ℕ) (m : List (ℕ × ℕ)) → lo < hi → Rising hi m → Rising lo m
Rising-mono lo hi [] h r = tt
Rising-mono lo hi ((k, n) ∷ m) h r = (omega arith, r.1)

module _ (k n : ℕ) (m : List (ℕ × ℕ)) (best r : ℕ × ℕ) (rising : Rising best.0 ((k, n) ∷ m)) where
  Chosen-take : leb best.1 n ≡ true → Chosen (k, n) m r → Chosen best ((k, n) ∷ m) r
  unfolding entry
  Chosen-take e c = record {
    grown = ground (arith, c.grown);
    most = λ p. ground (arith, c.grown, c.most p, entry_below k p m);
    latest = λ p. ground (arith, c.grown, c.latest p, entry_below k p m);
    origin = ground (arith, c.grown, c.origin, entry_below k r.0 m);
  }

  Chosen-skip : leb best.1 n ≡ false → Chosen best m r → Chosen best ((k, n) ∷ m) r
  unfolding entry
  Chosen-skip e c = record {
    grown = c.grown;
    most = λ p. ground (arith, c.grown, c.most p, entry_below k p m);
    latest = λ p. ground (arith, c.grown, c.latest p, entry_below k p m);
    origin = ground (arith, c.grown, c.origin, entry_below k r.0 m);
  }

choose_owner-Chosen :
    (m : List (ℕ × ℕ)) (best : ℕ × ℕ) → Rising best.0 m → Chosen best m (choose_owner m best)
unfolding choose_owner entry
choose_owner-Chosen [] best r = record {
  grown = omega arith;
  most = λ p. omega arith;
  latest = λ p h. omega arith;
  origin = inl refl;
}
choose_owner-Chosen ((k, n) ∷ m) best r = elim (Bool-cases (leb best.1 n)) [
  | inl newer ↦ rw newer (Chosen-take k n m best _ r newer (choose_owner-Chosen m (k, n) r.1))
  | inr older ↦ rw older (
      Chosen-skip k n m best _ r older
        (choose_owner-Chosen m best (Rising-mono best.0 k m r.0 r.1)))
]

tally-count : (cs : List CellState) (t : Tally) → (tally cs t).count ≡ t.count + live_count cs
unfolding tally live_count tally_cell
tally-count [] t = omega arith
tally-count (c ∷ cs) t = ground (arith, tally-count cs (tally_cell c t))

tally-entry :
    (p : ℕ) (cs : List CellState) (t : Tally)
    → entry p (tally cs t).neighbors_owners ≡ entry p t.neighbors_owners + votes p cs
unfolding tally votes tally_cell
tally-entry p [] t = omega arith
tally-entry p (c ∷ cs) t =
    ground (arith, tally-entry p cs (tally_cell c t), entry-add_owner c.owner p t.neighbors_owners)

tally-Rising :
    (cs : List CellState) (t : Tally)
    → Rising 0 t.neighbors_owners
    → Rising 0 (tally cs t).neighbors_owners
unfolding tally tally_cell
tally-Rising [] t r = r
tally-Rising (c ∷ cs) t r =
    tally-Rising cs (tally_cell c t) (ground (arith, add_owner-Rising 0 c.owner t.neighbors_owners))

some_vote : (cs : List CellState) → 0 < live_count cs → (p : ℕ) × (0 < votes p cs)
unfolding live_count votes
some_vote [] h = absurd (omega arith)
some_vote (c ∷ cs) h = elim (Bool-cases (counts c)) [
  | inl yea ↦ (c.owner, ground arith)
  | inr nay ↦ let (p, q) = some_vote cs (ground arith) in (p, ground arith)
]

-- The owner with the most cells, and the one with the largest id among those that tie.
pub record IsMajority (o : ℕ) (cs : List CellState) : Type 0 where
  pub present : 0 < votes o cs
  pub most : (p : ℕ) → votes p cs ≤ votes o cs
  pub latest : (p : ℕ) → votes p cs ≡ votes o cs → p ≤ o

Chosen-IsMajority :
    (cs : List CellState) (r : ℕ × ℕ)
    → 0 < live_count cs
    → Chosen (0, 0) (tally cs no_tally).neighbors_owners r
    → IsMajority r.0 cs
unfolding no_tally entry
Chosen-IsMajority cs r h c =
    let (p, hp) = some_vote cs h in
    let seen = λ (q : ℕ). tally-entry q cs no_tally in
    let here : 0 < votes r.0 cs × (votes r.0 cs ≡ r.1) =
      ground (arith, c.most p, c.origin, seen p, seen r.0) in
    record {
      present = here.0;
      most = λ q. ground (arith, here, c.most q, seen q);
      latest = λ q e. ground (arith, here, c.latest q, seen q);
    }

-- The number that `neighborAliveCount` returns is that of the neighbours that are alive and owned.
pub neighbor_alive_count-live_count :
    (b : Buffer) (x y : ℕ) → (neighbor_alive_count b (x + 1) (y + 1)).0 ≡ live_count (around b x y)
unfolding neighbor_alive_count no_tally
neighbor_alive_count-live_count b x y =
    rw (scan-tally b x y) (omega (arith, tally-count (around b x y) no_tally))

-- Where a cell has a live neighbour, the owner that `neighborAliveCount` returns has as many cells among
-- the neighbours as anyone, and the greatest id among those that have as many.
pub neighbor_alive_count-IsMajority :
    (b : Buffer) (x y : ℕ)
    → 0 < live_count (around b x y)
    → IsMajority (neighbor_alive_count b (x + 1) (y + 1)).1 (around b x y)
unfolding neighbor_alive_count no_tally
neighbor_alive_count-IsMajority b x y h = rw (scan-tally b x y) (
    Chosen-IsMajority (around b x y) _ h
      (choose_owner-Chosen _ (0, 0) (tally-Rising (around b x y) no_tally tt)))
