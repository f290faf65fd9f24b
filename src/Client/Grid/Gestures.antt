-- ===== src/Client/Grid/Gestures.antt =====
-- client/src/InfiniteGridView.cpp: which gestures of the mouse are clicks on a cell.
use multilife.Prelude.{
  ◌≡◌, refl, ◌∙◌, Bool, true, false, inl, inr, Bool-cases, not, ◌||◌, ltb, if◌then◌else◌, List, [],
  ◌∷◌, none, some, arith,
}
use multilife.Prelude.Int.{ℤ, ◌-ℤ◌}
use multilife.Client.WorldModel.{CellKey}
use multilife.Client.Grid.{Gesture, mouse_press, mouse_move, mouse_release, manhattan_length}

-- What the mouse does between the press of its left button and the release.
pub data Move : Type 0 where
  moved : ℤ → ℤ → Move
  other_pressed : ℤ → ℤ → Move
  other_released : ℤ → ℤ → Move

choice : (b : Bool) (k : CellKey) → (if not b then some k else none) ≡ (if b then none else some k)
choice true k = refl
choice false k = refl

module _ (cell_under : ℤ → ℤ → CellKey) where
  unfoldable pub handle : Move → Gesture → Gesture
  handle (moved x y) g = mouse_move x y g
  handle (other_pressed x y) g = mouse_press false x y g
  handle (other_released x y) g = (mouse_release cell_under false x y g).0

  unfoldable pub handle_all : List Move → Gesture → Gesture
  handle_all [] g = g
  handle_all (move ∷ moves) g = handle_all moves (handle move g)

  -- The mouse was at some time more than four pixels away.
  unfoldable pub strays : ℤ → ℤ → List Move → Bool
  strays x y [] = false
  strays x y (moved a b ∷ moves) = ltb 4 (manhattan_length (a -ℤ x) (b -ℤ y)) || strays x y moves
  strays x y (other_pressed a b ∷ moves) = strays x y moves
  strays x y (other_released a b ∷ moves) = strays x y moves

  handle_all_lem :
      (moves : List Move) (drag : Bool) (x y : ℤ)
      → handle_all moves
          (record { left_pressed = true; drag_detected = drag; press_x = x; press_y = y })
        ≡ record {
          left_pressed = true;
          drag_detected = drag || strays x y moves;
          press_x = x;
          press_y = y;
        }
  unfolding handle_all handle strays mouse_press mouse_move mouse_release
  handle_all_lem [] drag x y = ground arith
  handle_all_lem (moved a b ∷ moves) drag x y =
      elim (Bool-cases (ltb 4 (manhattan_length (a -ℤ x) (b -ℤ y)))) [
        | inl far ↦ rw far (handle_all_lem moves true x y ∙ ground arith)
        | inr near ↦ rw near (handle_all_lem moves drag x y)
      ]
  handle_all_lem (other_pressed a b ∷ moves) drag x y = handle_all_lem moves drag x y
  handle_all_lem (other_released a b ∷ moves) drag x y = handle_all_lem moves drag x y

  -- A press of the left button, whatever moves and other buttons follow, and its release: a click on the cell
  -- under the release exactly if the mouse was never more than four pixels away from the press, in the
  -- sum of both directions; and the next gesture starts afresh.
  pub mouse_release-handle_all :
      (g : Gesture) (x y : ℤ) (moves : List Move) (a b : ℤ)
      → ((mouse_release cell_under true a b (handle_all moves (mouse_press true x y g))).1
          ≡ (if strays x y moves then none else some (cell_under a b)))
        × ((mouse_release cell_under true a b (handle_all moves (mouse_press true x y g))).0
            ≡ record { left_pressed = false; drag_detected = false; press_x = x; press_y = y })
  unfolding mouse_press mouse_release
  mouse_release-handle_all g x y moves a b =
      rw (handle_all_lem moves false x y) (choice (strays x y moves) (cell_under a b), refl)
