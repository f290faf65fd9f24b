-- ===== src/Examples/Grid.antt =====
-- The theorems on the view: a click with a small move, and two cells of which one has died.
use multilife.Prelude.{
  ℕ, ◌+◌, ◌-◌, ◌≡◌, true, false, if◌then◌else◌, leb, min, ◌==◌, List, [], ◌∷◌, none, some,
}
use multilife.Prelude.Int.{ℤ, pos, negsuc}
use multilife.Client.WorldModel.{CellKey, AliveCells}
use multilife.Client.Grid.{Gesture, Brightness, Visuals, mouse_press, mouse_release}
use multilife.Client.Grid.Gestures.{
  Move, moved, other_pressed, handle_all, strays, mouse_release-handle_all,
}

abbrev pixel : ℤ → ℤ → CellKey
pixel x y = record { x = x; y = y }

abbrev at_rest : Gesture
at_rest = record { left_pressed = false; drag_detected = false; press_x = pos 0; press_y = pos 0 }

abbrev shake : List Move
shake = moved (pos 12) (pos 7) ∷ other_pressed (pos 12) (pos 7) ∷ moved (pos 11) (pos 9) ∷ []

mouse_release-handle_all_example :
    ((mouse_release pixel true
        (pos 11)
        (pos 9)
        (handle_all pixel shake (mouse_press true (pos 10) (pos 8) at_rest))).1
      ≡ (if strays pixel (pos 10) (pos 8) shake then none else some (pixel (pos 11) (pos 9))))
    × ((mouse_release pixel true
          (pos 11)
          (pos 9)
          (handle_all pixel shake (mouse_press true (pos 10) (pos 8) at_rest))).0
        ≡ record { left_pressed = false; drag_detected = false; press_x = pos 10; press_y = pos 8 })
mouse_release-handle_all_example =
    mouse_release-handle_all pixel at_rest (pos 10) (pos 8) shake (pos 11) (pos 9)

-- Thousandths.
abbrev thousandths : Brightness ℕ
thousandths = record {
  none_yet = 0;
  brighten = λ l. min 1000 (l + 120);
  dim = λ l. min 1000 l - 120;
  is_zero = λ l. l == 0;
  is_dark = λ l. leb l 1;
}

abbrev still_there : AliveCells
still_there = (record { x = pos 3; y = negsuc 1 }, 7) ∷ []

abbrev shown : Visuals thousandths
shown =
    (record { x = pos 3; y = negsuc 1 }, record { life = 1000; target_alive = true })
    ∷ (record { x = pos 4; y = pos 0 }, record { life = 640; target_alive = true })
    ∷ []
