-- ===== src/Client/Grid/Visuals.antt =====
-- client/src/InfiniteGridView.cpp: the cells that are shown, after the model changed and the animation ran.
use multilife.Prelude.{ℕ, zero, suc, ◌≡◌, ◌⊎◌, Bool, true, false, ◌&&◌, ◌||◌, List, [], ◌∷◌}
use multilife.Prelude.Int.{pos, neg}
use multilife.Client.WorldModel.{CellKey, key_eq, cell_key_eq, AliveCell, AliveCells, visible_cells}
use multilife.Client.Grid.{CellVisualState, Brightness, Visuals, huge, animate}

module _ {ℓ} {Life : Type ℓ} (b : Brightness Life) where
  -- The cell has an entry that is to be alive.
  unfoldable pub is_lit : CellKey → Visuals b → Bool
  is_lit key [] = false
  is_lit key ((k, v) ∷ vs) = (key_eq k key && v.target_alive) || is_lit key vs

  unfoldable pub dims : ℕ → Life → Life
  dims zero l = l
  dims (suc n) l = b.dim (dims n l)

  unfoldable pub animate_all : ℕ → Visuals b → Visuals b
  animate_all zero vs = vs
  animate_all (suc n) vs = animate b (animate_all n vs)

  abbrev pub visible : AliveCells → List AliveCell
  visible alive = visible_cells (neg huge) (neg huge) (pos huge) (pos huge) alive

  abbrev pub IsAlive : CellKey × CellVisualState Life → Type 0
  IsAlive e = e.1.target_alive ≡ true

  -- To stay, or dimmed so many times.
  abbrev Fading : ℕ → CellKey × CellVisualState Life → Type ℓ
  Fading n e = (e.1.target_alive ≡ true) ⊎ ((l : Life) × (e.1.life ≡ dims n l))
