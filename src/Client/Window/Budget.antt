-- ===== src/Client/Window/Budget.antt =====
-- client/src/GameWindow.cpp, `onGridCellClicked`: the budget of the pending edits, by the server's prices.
use multilife.Prelude.{
  ℕ, ◌+◌, ◌-◌, ◌==◌, ◌≤◌, ◌≡◌, refl, sym, Bool, true, false, not, ltb, if◌then◌else◌, inl, inr,
  Bool-cases, List, [], ◌∷◌, Option, none, some, nat_eq, arith,
}
use multilife.Prelude.Int.{ℤ}
use multilife.Prelude.Map.{find, insert, erase}
use multilife.Types.{CellState, dead_cell}
use multilife.Resources.{ResourceManager, place_cost, get_balance, try_spend, award}
use multilife.World.{edit_cell}
use multilife.Client.WorldModel.{CellKey, key_eq, key_eq_iff, cell_key_eq, WorldModel, owner_at}
use multilife.Client.Panels.{
  EditAction, toggle, place, remove, EditMode, immediate, queued, Window, Status,
  refresh_pending_list,
}
use multilife.Client.Window.{
  known_balance, will_spend, queued_spend, on_grid_cell_clicked, click_in, flip_pending,
  set_overlay, same_action, reject,
}
use multilife.Client.Window.Edits.{command_of, send_action_state}

module _ (m : WorldModel) where
  queued_spend-insert :
      (key : CellKey) (a : EditAction) (edits : List (CellKey × EditAction))
      → queued_spend m (insert key a edits)
        ≤ queued_spend m edits + will_spend a (owner_at m key.x key.y)
  unfolding queued_spend insert
  queued_spend-insert key a [] = omega arith
  queued_spend-insert key a ((k, b) ∷ edits) = elim (Bool-cases (key_eq k key)) [
    | inl same ↦ let q = (key_eq_iff k key).0 same in rw same (rw q (omega arith))
    | inr other ↦ rw other (omega (arith, queued_spend-insert key a edits))
  ]

  queued_spend-erase :
      (key : CellKey) (edits : List (CellKey × EditAction))
      → queued_spend m (erase key edits) ≤ queued_spend m edits
  unfolding queued_spend erase
  queued_spend-erase key [] = omega arith
  queued_spend-erase key ((k, b) ∷ edits) = ground (arith, queued_spend-erase key edits)

-- What the server takes for an action at a cell that has an owner, or 0 for none: what is gone of a purse
-- that covers one cell.
abbrev shown_cell : ℕ → CellState
shown_cell owner = if owner == 0 then dead_cell else record { alive = true; owner = owner }

abbrev purse : ℕ → ResourceManager
purse me = record { balances = (me, place_cost) ∷ [] }

unfoldable pub price : EditAction → ℕ → ℕ → ℕ
price a me owner =
    place_cost - get_balance (edit_cell (command_of a) me (shown_cell owner) (purse me)).1 me

unfoldable pub bill : ℕ → WorldModel → List (CellKey × EditAction) → ℕ
bill me m [] = 0
bill me m ((key, a) ∷ edits) = price a me (owner_at m key.x key.y) + bill me m edits

will_spend-price : (a : EditAction) (me owner : ℕ) → will_spend a owner ≡ price a me owner
unfolding will_spend price edit_cell try_spend award get_balance find insert
will_spend-price toggle me owner = ground arith
will_spend-price place me owner = ground arith
will_spend-price remove me owner = ground arith

queued_spend-bill :
    (me : ℕ) (m : WorldModel) (edits : List (CellKey × EditAction))
    → queued_spend m edits ≡ bill me m edits
unfolding queued_spend bill
queued_spend-bill me m [] = refl
queued_spend-bill me m ((key, a) ∷ edits) =
    rw (will_spend-price a me (owner_at m key.x key.y), queued_spend-bill me m edits)

-- The balance that the server has told covers what the server takes for the pending edits.
abbrev pub InBudget : Window → Type 0
InBudget w =
    (b : ℕ) → known_balance w ≡ some b → bill w.params.player_id w.world_model w.pending_edits ≤ b

-- The same by the prices of the window.
abbrev Affords : Window → Type 0
Affords w = (b : ℕ) → known_balance w ≡ some b → queued_spend w.world_model w.pending_edits ≤ b

flip_pending-cost :
    (key : CellKey) (a : EditAction) (w : Window)
    → queued_spend w.world_model (flip_pending key a w).pending_edits
      ≤ queued_spend w.world_model w.pending_edits
        + will_spend a (owner_at w.world_model key.x key.y)
unfolding flip_pending
flip_pending-cost key a w = elim (Bool-cases (same_action (find key w.pending_edits) a)) [
  | inl same ↦ rw same (omega (arith, queued_spend-erase w.world_model key w.pending_edits))
  | inr new ↦ rw new (queued_spend-insert w.world_model key a w.pending_edits)
]

ltb-le : (a b : ℕ) → ltb a b ≡ false → b ≤ a
ltb-le a b h = ground arith

-- The checks of a queued edit: it is put on the list only if the balance, where it is known, covers the
-- total.
checked-Affords :
    (allowed : Bool) (known : Option ℕ) (total : ℕ) (reason : Status) (poor : ℕ → Status)
    (w f : Window)
    → Affords w
    → (((b : ℕ) → known ≡ some b → total ≤ b) → Affords f)
    → Affords
        (if not allowed then reject reason w else (elim known [
          | none ↦ (f, [])
          | some balance ↦ if ltb balance total then reject (poor balance) w else (f, [])
        ])).0
checked-Affords false known total reason poor w f h k = h
checked-Affords true none total reason poor w f h k = k (λ b e. cc (e))
checked-Affords true (some balance) total reason poor w f h k =
    elim (Bool-cases (ltb balance total)) [
      | inl short ↦ rw short h
      | inr enough ↦
          rw enough (
            k (λ b e.
              let q : balance ≡ b = cc (e) in omega (arith, ltb-le balance total enough, q)))
    ]

flipped-Affords :
    (key : CellKey) (a : EditAction) (w : Window)
    → ((b : ℕ)
        → known_balance w ≡ some b
        → queued_spend w.world_model w.pending_edits
            + will_spend a (owner_at w.world_model key.x key.y)
          ≤ b)
    → Affords (set_overlay (refresh_pending_list (flip_pending key a w)))
unfolding set_overlay refresh_pending_list flip_pending
flipped-Affords key a w h b e = omega (arith, flip_pending-cost key a w, h b e)

click_in-Affords :
    (mode : EditMode) (x y : ℤ) (w : Window) → Affords w → Affords (click_in mode x y w).0
unfolding click_in
click_in-Affords immediate x y w h = rw (send_action_state w.action x y w) h
click_in-Affords queued x y w h =
    checked-Affords _ _ _ _ _ w _ h (flipped-Affords (record { x = x; y = y }) w.action w)

InBudget-Affords : (w : Window) → InBudget w → Affords w
InBudget-Affords w h b e =
    rw (queued_spend-bill w.params.player_id w.world_model w.pending_edits) (h b e)

Affords-InBudget : (w : Window) → Affords w → InBudget w
Affords-InBudget w h b e =
    rw (sym (queued_spend-bill w.params.player_id w.world_model w.pending_edits)) (h b e)

-- A click, in either mode and on any cell, keeps what the server takes for the pending edits, each by
-- itself and where the window's copy of the world is right, within the balance that the server has told.
pub on_grid_cell_clicked-InBudget :
    (x y : ℤ) (w : Window) → InBudget w → InBudget (on_grid_cell_clicked x y w).0
unfolding on_grid_cell_clicked
on_grid_cell_clicked-InBudget x y w h =
    Affords-InBudget (click_in w.mode x y w).0
      (click_in-Affords w.mode x y w (InBudget-Affords w h))
