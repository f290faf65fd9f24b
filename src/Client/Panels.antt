-- ===== src/Client/Panels.antt =====
-- client/include/GameWindow.h and client/src/GameWindow.cpp: the state of the window and what its panels
-- show. A label is the value that it shows, a text is a code, and the widgets are not modelled.
use multilife.Prelude.{
  ℕ, Bool, ltb, ◌==◌, if◌then◌else◌, List, [], ◌∷◌, map, length, Option, none, some, nat_eq,
}
use multilife.Prelude.Int.{◌==ℤ◌}
use multilife.Prelude.Map.{find}
use multilife.Client.Parsers.{ServerStatsEntry}
use multilife.Client.WorldModel.{
  CellKey, cell_key_eq, WorldModel, live_cells_owned_by, owner_stats, ltb_ℤ, floor_div,
}

pub data EditAction : Type 0 where
  toggle place remove : EditAction

pub data EditMode : Type 0 where
  immediate queued : EditMode

pub record ConnectionParams : Type 0 where
  pub host : ℕ
  pub tcp_port : ℕ
  pub udp_port : ℕ
  pub player_id : ℕ

-- The texts of the status line.
pub data Status : Type 0 where
  connection : Bool → Status
  place_owned : Status
  place_poor : Status
  remove_foreign : Status
  toggle_foreign : Status
  toggle_poor : Status
  not_permitted : Status
  queue_poor : ℕ → ℕ → Status

-- A line of the list of players: the id, the cells, and the balance, which may be unknown.
pub record PlayerLine : Type 0 where
  pub id : ℕ
  pub cells : ℕ
  pub balance : Option ℕ

pub record StatsPanel : Type 0 where
  pub player_id : ℕ
  pub balance : Option ℕ
  pub my_cells : ℕ
  pub income : ℕ
  pub players : List PlayerLine

pub record Window : Type 0 where
  pub world_model : WorldModel
  pub params : ConnectionParams
  pub server_players : List (ℕ × ServerStatsEntry)
  pub pending_edits : List (CellKey × EditAction)
  pub action : EditAction
  pub mode : EditMode
  pub status : Status
  pub stats : StatsPanel
  pub pending_list : List (CellKey × EditAction)
  pub pending_count : ℕ
  pub overlay : List (CellKey × ℕ)
  pub generation : ℕ
  pub live_cells : ℕ
  pub tick_ms : Option ℕ
  pub tick_timer_valid : Bool
  pub center : CellKey
  pub chunk : CellKey

-- The order of the list of pending edits: by row, and in a row by column.
abbrev pub above : CellKey → CellKey → Bool
above a b = if a.y ==ℤ b.y then ltb_ℤ a.x b.x else ltb_ℤ a.y b.y

-- `std::sort`, by insertion.
unfoldable pub insert_by_row :
    CellKey × EditAction → List (CellKey × EditAction) → List (CellKey × EditAction)
insert_by_row e [] = e ∷ []
insert_by_row e (f ∷ fs) = if above f.0 e.0 then f ∷ insert_by_row e fs else e ∷ f ∷ fs

unfoldable pub sort_by_row : List (CellKey × EditAction) → List (CellKey × EditAction)
sort_by_row [] = []
sort_by_row (e ∷ es) = insert_by_row e (sort_by_row es)

unfoldable pub refresh_pending_list : Window → Window
refresh_pending_list w = record w {
  pending_list = sort_by_row w.pending_edits;
  pending_count = length w.pending_edits;
}

-- More cells first, and then the smaller id.
abbrev pub ranks_above : ServerStatsEntry → ServerStatsEntry → Bool
ranks_above a b =
    if a.live_cells == b.live_cells
    then ltb a.player_id b.player_id
    else ltb b.live_cells a.live_cells

unfoldable pub insert_by_rank : ServerStatsEntry → List ServerStatsEntry → List ServerStatsEntry
insert_by_rank e [] = e ∷ []
insert_by_rank e (f ∷ fs) = if ranks_above f e then f ∷ insert_by_rank e fs else e ∷ f ∷ fs

unfoldable pub sort_by_rank : List (ℕ × ServerStatsEntry) → List ServerStatsEntry
sort_by_rank [] = []
sort_by_rank ((id, e) ∷ es) = insert_by_rank e (sort_by_rank es)

abbrev pub player_line : ServerStatsEntry → PlayerLine
player_line e = record { id = e.player_id; cells = e.live_cells; balance = some e.balance }

-- Without statistics of the server the panel counts the cells of the client's own model.
unfoldable pub own_stats : Window → StatsPanel
own_stats w =
    let cells = live_cells_owned_by w.world_model.alive_cells w.params.player_id in
    record {
      player_id = w.params.player_id;
      balance = none;
      my_cells = cells;
      income = cells;
      players =
          map (λ (id, n). record { id = id; cells = n; balance = none })
            (owner_stats w.world_model);
    }

unfoldable pub server_stats : Window → StatsPanel
server_stats w =
    let lines = map player_line (sort_by_rank w.server_players) in
    elim (find w.params.player_id w.server_players) [
      | none ↦ record {
        player_id = w.params.player_id;
        balance = some 0;
        my_cells = 0;
        income = 0;
        players = lines;
      }
      | some me ↦ record {
        player_id = w.params.player_id;
        balance = some me.balance;
        my_cells = me.live_cells;
        income = me.live_cells;
        players = lines;
      }
    ]

unfoldable pub refresh_stats_panel : Window → Window
refresh_stats_panel w = record w {
  stats = elim w.server_players [ [] ↦ own_stats w | p ∷ ps ↦ server_stats w ];
}

-- `center` is the middle of the view, already rounded.
unfoldable pub update_navigation_panel : CellKey → Window → Window
update_navigation_panel center w = record w {
  center = center;
  chunk = record { x = floor_div center.x 64; y = floor_div center.y 64 };
}
