-- ===== src/Client/Window/Edits.antt =====
-- client/src/GameWindow.cpp, `sendAction` and `applyPendingEdits`: the checks of the window against those of
-- the server, and the calls of the pending edits.
use multilife.Prelude.{◌≡◌, ◌≢◌, refl, ◌∙◌, ap, ◌⊎◌, not, List, [], ◌∷◌, ◌++◌, some, nat_eq, arith}
use multilife.Prelude.Int.{ℤ}
use multilife.Types.{CellState, CommandType, place_cell, remove_cell, toggle_cell}
use multilife.Resources.{ResourceManager, get_balance, try_spend, award}
use multilife.Resources.Balances.{IsKnown}
use multilife.World.{edit_cell}
use multilife.World.Edits.{IsOwned}
use multilife.Client.WorldModel.{CellKey, cell_key_eq, owner_at}
use multilife.Client.Runtime.{Call}
use multilife.Client.Panels.{
  EditAction, toggle, place, remove, Window, Status, refresh_pending_list, sort_by_row,
}
use multilife.Client.Window.{
  known_balance, send_action, apply_edits, send_pending, clear_pending, apply_pending_edits,
  set_overlay,
}

-- The server's name for an action.
abbrev pub command_of : EditAction → CommandType
command_of toggle = toggle_cell
command_of place = place_cell
command_of remove = remove_cell

-- The window knows the cell and the player's balance as the server does.
pub record UpToDate (w : Window) (x y : ℤ) (cell : CellState) (r : ResourceManager) : Type 0 where
  pub owner : owner_at w.world_model x y ≡ cell.owner
  pub balance : known_balance w ≡ some (get_balance r w.params.player_id)
  pub known : IsKnown w.params.player_id r

-- The call that asks the server for a command.
abbrev pub call_for : CommandType → ℤ → ℤ → Call
call_for toggle_cell x y = Call.toggle x y
call_for place_cell x y = Call.place x y
call_for remove_cell x y = Call.remove x y

-- A window that is up to date, of a player other than 0, either makes no call, and then the command would
-- change nothing on the server, or makes the one call that asks for the action's command at the cell, and
-- then the cell is born or dies by that command.
pub send_action-edit_cell :
    (a : EditAction) (x y : ℤ) (w : Window) (cell : CellState) (r : ResourceManager)
    → w.params.player_id ≢ 0
    → IsOwned cell
    → UpToDate w x y cell r
    → (((send_action a x y w).1 ≡ [])
        × (edit_cell (command_of a) w.params.player_id cell r ≡ (cell, r)))
      ⊎ (((send_action a x y w).1 ≡ call_for (command_of a) x y ∷ [])
          × ((edit_cell (command_of a) w.params.player_id cell r).0.alive ≡ not cell.alive))
unfolding send_action edit_cell try_spend award get_balance
send_action-edit_cell place x y w cell r k h u = ground (arith, u.owner, u.balance)
send_action-edit_cell remove x y w cell r k h u = ground (arith, u.owner)
send_action-edit_cell toggle x y w cell r k h u = ground (arith, u.owner, u.balance)

-- Sending changes the status line at most.
pub send_action_state :
    (a : EditAction) (x y : ℤ) (w : Window)
    → (send_action a x y w).0 ≡ record w { status = (send_action a x y w).0.status }
unfolding send_action
send_action_state place x y w = ground arith
send_action_state remove x y w = ground arith
send_action_state toggle x y w = ground arith

-- The calls that the pending edits come to, each by itself.
unfoldable pub calls_of : Window → List (CellKey × EditAction) → List Call
calls_of w [] = []
calls_of w ((key, a) ∷ edits) = (send_action a key.x key.y w).1 ++ calls_of w edits

-- The call that an edit makes does not depend on the status line.
send_action-status :
    (a : EditAction) (x y : ℤ) (w : Window) (s : Status)
    → (send_action a x y (record w { status = s })).1 ≡ (send_action a x y w).1
unfolding send_action
send_action-status place x y w s = ground arith
send_action-status remove x y w s = ground arith
send_action-status toggle x y w s = ground arith

calls_of-status :
    (edits : List (CellKey × EditAction)) (w : Window) (s : Status)
    → calls_of (record w { status = s }) edits ≡ calls_of w edits
unfolding calls_of
calls_of-status [] w s = refl
calls_of-status ((key, a) ∷ edits) w s =
    rw (send_action-status a key.x key.y w s, calls_of-status edits w s)

send_pending_lem :
    (edits : List (CellKey × EditAction)) (w : Window) → (send_pending edits w).1 ≡ calls_of w edits
unfolding send_pending calls_of
send_pending_lem [] w = refl
send_pending_lem ((key, a) ∷ edits) w =
    ap (λ (cs : List Call). (send_action a key.x key.y w).1 ++ cs)
      (send_pending_lem edits (send_action a key.x key.y w).0
        ∙ rw (send_action_state a key.x key.y w) (calls_of-status edits w _))

-- The call of each edit in turn, and no edit left.
pub record Applies (w : Window) (edits : List (CellKey × EditAction)) (out : Window × List Call)
    : Type 0 where
  pub made : out.1 ≡ calls_of w edits
  pub emptied : out.0.pending_edits ≡ []
  pub shown : edits ≢ [] → (out.0.pending_list ≡ []) × (out.0.overlay ≡ [])

apply_edits-Applies :
    (edits : List (CellKey × EditAction)) (w : Window)
    → w.pending_edits ≡ edits
    → Applies w edits (apply_edits edits w)
unfolding apply_edits clear_pending set_overlay refresh_pending_list sort_by_row calls_of
apply_edits-Applies [] w e = record { made = refl; emptied = e; shown = λ h. absurd (h refl) }
apply_edits-Applies (edit ∷ edits) w e = record {
  made = send_pending_lem (edit ∷ edits) w;
  emptied = refl;
  shown = λ h. (refl, refl);
}

-- Applying the pending edits makes, for each of them in turn, the call that it would make alone, and
-- leaves none pending; if there were any, the list and the view show none any more.
pub apply_pending_edits-Applies : (w : Window) → Applies w w.pending_edits (apply_pending_edits w)
unfolding apply_pending_edits
apply_pending_edits-Applies w = apply_edits-Applies w.pending_edits w refl
