-- ===== src/Mirror/Live.antt =====
-- server/include/WorldSerializer.hpp, `serializeFull`: the entries of a tile are its live cells.
use multilife.Prelude.{
  ℕ, ◌≡◌, refl, true, if◌then◌else◌, inl, inr, Bool-cases, List, [], ◌∷◌, ◌++◌, All, In,
  In-append_left, In-append_right, upto, upto_inv, upto_once, upto_keep,
}
use multilife.Types.{chunk_width, chunk_height}
use multilife.Chunk.{Chunk, get_cell}
use multilife.Chunk.Cells.{Inside}
use multilife.Serializer.{Entry, live_entries}

module _ (c : Chunk) where
  abbrev pub live_entry : ℕ → ℕ → Entry
  live_entry x y = record { x = x; y = y; alive = 1; owner = (get_cell c x y).owner }

  -- The entry of a live cell of the tile.
  pub record IsLive (e : Entry) : Type 0 where
    pub inside : Inside e.x e.y
    pub alive : (get_cell c e.x e.y).alive ≡ true
    pub entry : e ≡ live_entry e.x e.y

  All-snoc : (es : List Entry) (e : Entry) → All IsLive es → IsLive e → All IsLive (es ++ (e ∷ []))
  All-snoc [] e h k = (k, tt)
  All-snoc (d ∷ es) e h k = (h.0, All-snoc es e h.1 k)

  abbrev visit : ℕ → ℕ → List Entry → List Entry
  visit y x es = if (get_cell c x y).alive then es ++ (live_entry x y ∷ []) else es

  visit-IsLive :
      (x y : ℕ) (es : List Entry) → Inside x y → All IsLive es → All IsLive (visit y x es)
  visit-IsLive x y es h k = elim (Bool-cases (get_cell c x y).alive) [
    | inl on ↦
        rw on (All-snoc es (live_entry x y) k (record { inside = h; alive = on; entry = refl }))
    | inr off ↦ rw off k
  ]

  pub live_entries-IsLive : All IsLive (live_entries c)
  unfolding live_entries
  live_entries-IsLive =
      upto_inv (λ y (es : List Entry). All IsLive es) chunk_height _ [] tt
        (λ y es ly k.
          upto_inv (λ x (fs : List Entry). All IsLive fs) chunk_width _ es k
            (λ x fs lx l. visit-IsLive x y fs (lx, ly) l))

  visit-In : (e : Entry) (x y : ℕ) (es : List Entry) → In e es → In e (visit y x es)
  visit-In e x y es i = elim (Bool-cases (get_cell c x y).alive) [
    | inl on ↦ rw on (In-append_left e es (live_entry x y ∷ []) i)
    | inr off ↦ rw off i
  ]

  visit-new :
      (x y : ℕ) (es : List Entry)
      → (get_cell c x y).alive ≡ true
      → In (live_entry x y) (visit y x es)
  visit-new x y es on = rw on (In-append_right (live_entry x y) es (live_entry x y ∷ []) (inl refl))

  pub live_entries-In :
      (x y : ℕ) → Inside x y → (get_cell c x y).alive ≡ true → In (live_entry x y) (live_entries c)
  unfolding live_entries
  live_entries-In x y h on =
      let P = λ (es : List Entry). In (live_entry x y) es in
      upto_once P chunk_height (λ cy. upto chunk_width (visit cy)) [] y h.1
        (λ cy es i.
          upto_keep P chunk_width (visit cy) es i (λ cx fs j. visit-In (live_entry x y) cx cy fs j))
        (λ es.
          upto_once P chunk_width (visit y) es x h.0
            (λ cx fs j. visit-In (live_entry x y) cx y fs j) (λ fs. visit-new x y fs on))
