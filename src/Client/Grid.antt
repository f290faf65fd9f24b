-- ===== src/Client/Grid.antt =====
-- client/include/InfiniteGridView.h and client/src/InfiniteGridView.cpp: the gestures of the mouse, the
-- colours, and which cells are shown as alive. How bright a cell is drawn is a floating-point number from
-- 0 to 1, and the type of these is a parameter with the arithmetic on it; the drawing is not modelled.
pub mod Gestures
pub mod Visuals
pub mod Zoom
use multilife.Prelude.{
  ℕ, ◌+◌, ◌*◌, ◌%◌, ◌^◌, Bool, true, false, not, ◌&&◌, ◌||◌, ltb, ◌==◌, if◌then◌else◌, List, [],
  ◌∷◌, each, Option, none, some,
}
use multilife.Prelude.Int.{ℤ, pos, negsuc, ◌-ℤ◌, pos_part, neg_part, neg}
use multilife.Prelude.Map.{find, insert}
use multilife.Client.WorldModel.{CellKey, cell_key_eq, key_eq, AliveCell, AliveCells, visible_cells}

pub record Gesture : Type 0 where
  pub left_pressed : Bool
  pub drag_detected : Bool
  pub press_x : ℤ
  pub press_y : ℤ

unfoldable pub mouse_press : Bool → ℤ → ℤ → Gesture → Gesture
mouse_press left x y g =
    if left
    then record { left_pressed = true; drag_detected = false; press_x = x; press_y = y }
    else g

abbrev pub size_of : ℤ → ℕ
size_of a = pos_part a + neg_part a

abbrev pub manhattan_length : ℤ → ℤ → ℕ
manhattan_length x y = size_of x + size_of y

unfoldable pub mouse_move : ℤ → ℤ → Gesture → Gesture
mouse_move x y g =
    if g.left_pressed && ltb 4 (manhattan_length (x -ℤ g.press_x) (y -ℤ g.press_y))
    then record g { drag_detected = true }
    else g

-- `cell_under` is `mapToScene`, rounded downwards; the result is the cell of `cellClicked`, if it is emitted.
unfoldable pub mouse_release : (ℤ → ℤ → CellKey) → Bool → ℤ → ℤ → Gesture → Gesture × Option CellKey
mouse_release cell_under left x y g = (
  if left then record g { left_pressed = false; drag_detected = false } else g,
  if left && (g.left_pressed && not g.drag_detected) then some (cell_under x y) else none,
)

-- The hue of an owner, of 360; the product is taken in 64 bits.
unfoldable pub owner_hue : ℕ → ℕ
owner_hue owner_id = owner_id * 2654435761 % 2 ^ 64 % 360

pub data PendingColor : Type 0 where
  blue red grey : PendingColor

unfoldable pub pending_color : ℕ → PendingColor
pending_color action = if action == 1 then blue else (if action == 2 then red else grey)

-- `aliveNow.contains(key)`
unfoldable pub has_cell : CellKey → List AliveCell → Bool
has_cell key [] = false
has_cell key (c ∷ cells) = key_eq (record { x = c.x; y = c.y }) key || has_cell key cells

-- The rectangle of `syncVisualState` reaches so far in each direction.
abbrev pub huge : ℕ
huge = 1000000000

pub record CellVisualState {ℓ} (Life : Type ℓ) : Type ℓ where
  pub life : Life
  pub target_alive : Bool

-- The arithmetic that the code uses, which stays between 0 and 1: 0, `qMin(1, life + speed)`, `qMax(0, life - speed)`, and
-- the tests `life <= 0` and `life <= 0.001`.
pub record Brightness {ℓ} (Life : Type ℓ) : Type ℓ where
  pub none_yet : Life
  pub brighten : Life → Life
  pub dim : Life → Life
  pub is_zero : Life → Bool
  pub is_dark : Life → Bool

module _ {ℓ} {Life : Type ℓ} (b : Brightness Life) where
  abbrev pub Visuals : Type ℓ
  Visuals = List (CellKey × CellVisualState Life)

  -- `m_cellVisuals[key]` of the first loop, and what is done to it.
  unfoldable pub show_alive : CellKey → Visuals → Visuals
  show_alive key vs = insert key (wake (find key vs)) vs
    where
      wake : Option (CellVisualState Life) → CellVisualState Life
      wake none = record { life = b.none_yet; target_alive = true }
      wake (some v) = record {
        life = if b.is_zero v.life then b.none_yet else v.life;
        target_alive = true;
      }

  -- The second loop.
  unfoldable pub hide_others : List AliveCell → Visuals → Visuals
  hide_others cells [] = []
  hide_others cells ((key, v) ∷ vs) =
      (key, if has_cell key cells then v else record v { target_alive = false })
      ∷ hide_others cells vs

  unfoldable pub sync_visual_state : AliveCells → Visuals → Visuals
  sync_visual_state alive vs =
      let cells = visible_cells (neg huge) (neg huge) (pos huge) (pos huge) alive in
      hide_others cells (each cells (λ c. show_alive (record { x = c.x; y = c.y })) vs)

  -- The handler of the animation's timer.
  unfoldable pub animate : Visuals → Visuals
  animate [] = []
  animate ((key, v) ∷ vs) =
      let life = if v.target_alive then b.brighten v.life else b.dim v.life in
      let rest = animate vs in
      if not v.target_alive && b.is_dark life
      then rest
      else (key, record { life = life; target_alive = v.target_alive }) ∷ rest
