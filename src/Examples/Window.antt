-- ===== src/Examples/Window.antt =====
-- The theorems on the window and the client's runtime, at a window with two pending edits.
use multilife.Prelude.{
  ◌≡◌, ◌⊎◌, refl, true, false, not, List, [], ◌∷◌, ◌++◌, All, none, some, arith, nat_eq, ℕ,
}
use multilife.Prelude.Int.{pos, negsuc}
use multilife.Prelude.Map.{find, insert}
use multilife.Types.{dead_cell, toggle_cell}
use multilife.Resources.{get_balance, try_spend, award}
use multilife.World.{edit_cell}
use multilife.Sessions.{run_session}
use multilife.Client.WorldModel.{WorldModel, cell_key_eq, owner_at}
use multilife.Client.Parsers.{try_parse_server_stats_message}
use multilife.Client.Network.Reading.{on_tcp_ready_read-append, on_tcp_ready_read-settled}
use multilife.Client.Network.{
  on_tcp_ready_read, NetworkClient, unconnected, connected, handshake_bytes,
}
use multilife.Client.Runtime.{Call}
use multilife.Client.Runtime.Delivery.{
  written, perform_all, IsEdit, commands_of, run_session-perform_all,
}
use multilife.Client.Panels.{Window, toggle, place, queued, connection}
use multilife.Client.Window.{send_action, on_grid_cell_clicked, apply_pending_edits}
use multilife.Client.Window.Edits.{
  UpToDate, send_action-edit_cell, Applies, apply_pending_edits-Applies,
}
use multilife.Client.Window.Budget.{InBudget, bill, price, on_grid_cell_clicked-InBudget}
use multilife.Examples.{two_players}
use multilife.Examples.Protocol.{no_sessions}

abbrev model : WorldModel
model = record { alive_cells = (record { x = pos 4; y = pos 4 }, 8) ∷ []; generation = 41 }

abbrev window : Window
window = record {
  world_model = model;
  params = record { host = 0; tcp_port = 9000; udp_port = 9001; player_id = 7 };
  server_players = (7, record { player_id = 7; balance = 10; live_cells = 0 }) ∷ [];
  pending_edits =
      (record { x = pos 1; y = pos 2 }, place) ∷ (record { x = negsuc 0; y = pos 2 }, toggle) ∷ [];
  action = toggle;
  mode = queued;
  status = connection true;
  stats = record { player_id = 7; balance = some 10; my_cells = 0; income = 0; players = [] };
  pending_list = [];
  pending_count = 2;
  overlay = [];
  generation = 41;
  live_cells = 1;
  tick_ms = none;
  tick_timer_valid = false;
  center = record { x = pos 0; y = pos 0 };
  chunk = record { x = pos 0; y = pos 0 };
}

window-UpToDate : UpToDate window (pos 3) (pos 3) dead_cell two_players
unfolding owner_at find get_balance
window-UpToDate = record { owner = refl; balance = refl; known = λ e. cc (e) }

send_action-edit_cell_example :
    (((send_action toggle (pos 3) (pos 3) window).1 ≡ [])
      × (edit_cell toggle_cell 7 dead_cell two_players ≡ (dead_cell, two_players)))
    ⊎ (((send_action toggle (pos 3) (pos 3) window).1 ≡ Call.toggle (pos 3) (pos 3) ∷ [])
        × ((edit_cell toggle_cell 7 dead_cell two_players).0.alive ≡ not dead_cell.alive))
send_action-edit_cell_example =
    send_action-edit_cell toggle (pos 3) (pos 3) window dead_cell two_players (omega arith)
      ((λ e. refl), λ e. cc (e)) window-UpToDate

window-InBudget : InBudget window
unfolding bill price edit_cell try_spend award get_balance owner_at find insert
window-InBudget b e = ground (arith, e)

on_grid_cell_clicked-InBudget_example : InBudget (on_grid_cell_clicked (pos 3) (pos 3) window).0
on_grid_cell_clicked-InBudget_example =
    on_grid_cell_clicked-InBudget (pos 3) (pos 3) window window-InBudget

apply_pending_edits-Applies_example :
    Applies window window.pending_edits (apply_pending_edits window)
apply_pending_edits-Applies_example = apply_pending_edits-Applies window

abbrev pub client : NetworkClient
client = record {
  host = 0;
  tcp_port = 9000;
  udp_port = 9001;
  player_id = 7;
  manual_disconnect = false;
  reconnect_active = false;
  last_seq_num = none;
  tcp_read_buffer = [];
}

abbrev edits : List Call
edits = Call.place (pos 1) (negsuc 4) ∷ Call.resync ∷ Call.toggle (pos 0) (pos 70) ∷ []

edits-IsEdit : All IsEdit edits
unfolding IsEdit
edits-IsEdit = ((ground arith, ground arith), (tt, ((ground arith, ground arith), tt)))

run_session-perform_all_example :
    (run_session
      (handshake_bytes 7 ++ written (perform_all unconnected connected edits client).1)
      1
      no_sessions).1.0
    ≡ commands_of 7 edits
run_session-perform_all_example =
    run_session-perform_all unconnected edits client 1 no_sessions (omega arith) edits-IsEdit

-- The start of a message, its end, and the first byte of the next.
abbrev first_piece : List ℕ
first_piece = 0 ∷ 32 ∷ 41 ∷ 0 ∷ []

abbrev second_piece : List ℕ
second_piece = 0 ∷ 0 ∷ 0 ∷ 0 ∷ 32 ∷ []

on_tcp_ready_read-append_example :
    ((on_tcp_ready_read second_piece (on_tcp_ready_read first_piece client).0).0
      ≡ (on_tcp_ready_read (first_piece ++ second_piece) client).0)
    × ((on_tcp_ready_read first_piece client).1
          ++ (on_tcp_ready_read second_piece (on_tcp_ready_read first_piece client).0).1
        ≡ (on_tcp_ready_read (first_piece ++ second_piece) client).1)
on_tcp_ready_read-append_example = on_tcp_ready_read-append first_piece second_piece client

on_tcp_ready_read-settled_example :
    try_parse_server_stats_message (on_tcp_ready_read second_piece client).0.tcp_read_buffer
    ≡ (none, (on_tcp_ready_read second_piece client).0.tcp_read_buffer)
on_tcp_ready_read-settled_example = on_tcp_ready_read-settled second_piece client
