-- ===== src/Client/Window.antt =====
-- client/src/GameWindow.cpp: edits of cells, at once or queued, the connection dialog, and the handlers
-- of the signals. A handler returns the window and the calls that it makes of the client's runtime.
pub mod Edits
pub mod Budget
use multilife.Prelude.{
  ℕ, zero, suc, ◌+◌, ◌*◌, ◌%◌, ◌^◌, Bool, true, false, not, ◌&&◌, ◌||◌, ltb, ◌==◌, if◌then◌else◌,
  List, [], ◌∷◌, ◌++◌, map, length, each, Option, none, some, nat_eq,
}
use multilife.Prelude.Int.{ℤ}
use multilife.Prelude.Map.{find, insert, erase}
use multilife.Client.Parsers.{ServerStatsEntry}
use multilife.Client.WorldModel.{
  CellKey, cell_key_eq, AliveCell, WorldModel, owner_at, live_cells_count, apply_update, reset,
}
use multilife.Client.Runtime.{Call}
use multilife.Client.Panels.{
  EditAction, toggle, place, remove, EditMode, immediate, queued, ConnectionParams, Status,
  connection, place_owned, place_poor, remove_foreign, toggle_foreign, toggle_poor, not_permitted,
  queue_poor, Window, refresh_pending_list, refresh_stats_panel,
}

abbrev pub client_place_cost : ℕ
client_place_cost = 2

abbrev pub action_eq : EditAction → EditAction → Bool
action_eq toggle toggle = true
action_eq place place = true
action_eq remove remove = true
action_eq _ _ = false

-- The numbers of the actions, as the view is told them.
abbrev pub action_code : EditAction → ℕ
action_code toggle = 0
action_code place = 1
action_code remove = 2

-- The player's balance, if the server has told it.
abbrev pub known_balance : Window → Option ℕ
known_balance w = elim (find w.params.player_id w.server_players) [
  | none ↦ none
  | some me ↦ some me.balance
]

abbrev pub too_poor : Option ℕ → ℕ → Bool
too_poor none cost = false
too_poor (some balance) cost = ltb balance cost

abbrev pub reject : Status → Window → Window × List Call
reject reason w = (record w { status = reason }, [])

unfoldable pub send_action : EditAction → ℤ → ℤ → Window → Window × List Call
send_action place x y w =
    if not (owner_at w.world_model x y == 0)
    then reject place_owned w
    else (if too_poor (known_balance w) client_place_cost
        then reject place_poor w
        else (w, Call.place x y ∷ []))
send_action remove x y w =
    if not (owner_at w.world_model x y == w.params.player_id)
    then reject remove_foreign w
    else (w, Call.remove x y ∷ [])
send_action toggle x y w =
    let owner = owner_at w.world_model x y in
    if not (owner == 0) && not (owner == w.params.player_id)
    then reject toggle_foreign w
    else (if owner == 0 && too_poor (known_balance w) client_place_cost
        then reject toggle_poor w
        else (w, Call.toggle x y ∷ []))

unfoldable pub will_spend : EditAction → ℕ → ℕ
will_spend place owner = if owner == 0 then client_place_cost else 0
will_spend toggle owner = if owner == 0 then client_place_cost else 0
will_spend remove owner = 0

unfoldable pub is_allowed : EditAction → ℕ → ℕ → Bool
is_allowed place me owner = owner == 0
is_allowed remove me owner = owner == me
is_allowed toggle me owner = owner == 0 || owner == me

-- What the pending edits would cost: 2 each at most, so the sum cannot wrap.
unfoldable pub queued_spend : WorldModel → List (CellKey × EditAction) → ℕ
queued_spend m [] = 0
queued_spend m ((key, action) ∷ edits) =
    will_spend action (owner_at m key.x key.y) + queued_spend m edits

-- `setPendingEdits` of the view.
unfoldable pub set_overlay : Window → Window
set_overlay w = record w {
  overlay = map (λ (key, action). (key, action_code action)) w.pending_edits;
}

abbrev pub same_action : Option EditAction → EditAction → Bool
same_action none b = false
same_action (some a) b = action_eq a b

-- The edit is taken off if it is pending already, and put on the list otherwise.
unfoldable pub flip_pending : CellKey → EditAction → Window → Window
flip_pending key action w = record w {
  pending_edits =
      if same_action (find key w.pending_edits) action
      then erase key w.pending_edits
      else insert key action w.pending_edits;
}

-- The two modes of a click.
unfoldable pub click_in : EditMode → ℤ → ℤ → Window → Window × List Call
click_in immediate x y w = send_action w.action x y w
click_in queued x y w =
    let owner = owner_at w.world_model x y in
    let total = queued_spend w.world_model w.pending_edits + will_spend w.action owner in
    let flipped =
      set_overlay (refresh_pending_list (flip_pending (record { x = x; y = y }) w.action w)) in
    if not (is_allowed w.action w.params.player_id owner)
    then reject not_permitted w
    else (elim (known_balance w) [
      | none ↦ (flipped, [])
      | some balance ↦
          if ltb balance total then reject (queue_poor total balance) w else (flipped, [])
    ])

unfoldable pub on_grid_cell_clicked : ℤ → ℤ → Window → Window × List Call
on_grid_cell_clicked x y w = click_in w.mode x y w

-- The loop over the pending edits.
unfoldable pub send_pending : List (CellKey × EditAction) → Window → Window × List Call
send_pending [] w = (w, [])
send_pending ((key, action) ∷ edits) w =
    let sent = send_action action key.x key.y w in
    let rest = send_pending edits sent.0 in (rest.0, sent.1 ++ rest.1)

unfoldable pub clear_pending : Window → Window
clear_pending w = set_overlay (refresh_pending_list (record w { pending_edits = [] }))

unfoldable pub apply_edits : List (CellKey × EditAction) → Window → Window × List Call
apply_edits [] w = (w, [])
apply_edits (edit ∷ edits) w =
    let sent = send_pending (edit ∷ edits) w in (clear_pending sent.0, sent.1)

unfoldable pub apply_pending_edits : Window → Window × List Call
apply_pending_edits w = apply_edits w.pending_edits w

-- `elapsed` is what the timer answers where it is restarted.
unfoldable pub on_stats_changed : ℕ → Window → Window
on_stats_changed elapsed w = refresh_stats_panel (record w {
  generation = w.world_model.generation;
  live_cells = live_cells_count w.world_model;
  tick_ms =
      if w.tick_timer_valid then (if ltb 0 elapsed then some elapsed else w.tick_ms) else w.tick_ms;
  tick_timer_valid = true;
})

unfoldable pub on_world_update : ℕ → ℕ → Bool → ℤ → ℤ → List AliveCell → Window → Window
on_world_update elapsed seq_num full_snapshot chunk_x chunk_y cells w =
    on_stats_changed elapsed (record w {
      world_model = apply_update seq_num full_snapshot chunk_x chunk_y cells w.world_model;
    })

unfoldable pub on_server_stats_updated : List ServerStatsEntry → Window → Window
on_server_stats_updated players w = refresh_stats_panel (record w {
  server_players = each players (λ (p : ServerStatsEntry) m. insert p.player_id p m) [];
})

-- The settings that are kept between runs, as far as there are any.
pub record Settings : Type 0 where
  pub host : Option ℕ
  pub tcp_port : Option ℕ
  pub udp_port : Option ℕ
  pub player_id : Option ℕ

unfoldable pub save_connection_settings : ConnectionParams → Settings
save_connection_settings p = record {
  host = some p.host;
  tcp_port = some p.tcp_port;
  udp_port = some p.udp_port;
  player_id = some p.player_id;
}

abbrev pub value_or : Option ℕ → ℕ → ℕ
value_or none default = default
value_or (some v) default = v

-- Code 0 stands for the text "127.0.0.1".
abbrev pub default_host : ℕ
default_host = 0

unfoldable pub load_connection_settings : ℕ → Settings → ConnectionParams
load_connection_settings random s = record {
  host = value_or s.host default_host;
  tcp_port = value_or s.tcp_port 9000 % 2 ^ 16;
  udp_port = value_or s.udp_port 9001 % 2 ^ 16;
  player_id = value_or s.player_id random;
}

unfoldable pub on_connection_state_changed : Bool → Window → Settings → Window × Settings
on_connection_state_changed connected w s =
    let told = record w { status = connection connected } in
    if connected
    then (told, save_connection_settings w.params)
    else (refresh_stats_panel (record told { server_players = [] }), s)

-- The handler of `accepted`: `none` keeps the dialog open. The id is none where the text is no number,
-- and the host is none where its trimmed text is empty.
unfoldable pub dialog_accepted : Option ℕ → Option ℕ → ℕ → ℕ → Option ConnectionParams
dialog_accepted none host tcp_port udp_port = none
dialog_accepted (some id) host tcp_port udp_port =
    if id == 0
    then none
    else some (record {
      host = value_or host default_host;
      tcp_port = tcp_port % 2 ^ 16;
      udp_port = udp_port % 2 ^ 16;
      player_id = id;
    })

-- `answer` is what the dialog returns, none where it is cancelled.
unfoldable pub open_connection_dialog : ℕ → Option ConnectionParams → Window → Window × List Call
open_connection_dialog elapsed none w = (w, [])
open_connection_dialog elapsed (some p) w =
    let shown = refresh_stats_panel (record w { params = p }) in
    let emptied =
      on_stats_changed elapsed (record shown { world_model = reset shown.world_model }) in
    (
      record emptied { tick_ms = none; tick_timer_valid = false },
      Call.connect p.host p.tcp_port p.udp_port p.player_id ∷ [],
    )
