-- ===== src/Resources/Known.antt =====
-- server/src/ResourceManager.cpp and server/src/GameServer.cpp: a player who has a balance keeps one.
use multilife.Prelude.{
  ℕ, Bool, true, false, ◌||◌, ◌==◌, ltb, if◌then◌else◌, inl, inr, Bool-cases, List, each_keep,
  Option-cases, nat_eq, arith,
}
use multilife.Prelude.Map.{find, insert, find-insert}
use multilife.Types.{CellState, CommandType, place_cell, remove_cell, toggle_cell, PlayerCommand}
use multilife.Resources.{
  ResourceManager, add_player, try_spend, award, award_live, award_from_live_counts, remove_award,
  place_cost, start_balance,
}
use multilife.Resources.Balances.{IsKnown}
use multilife.World.{ChunkMap, edit_cell, apply_command, apply_commands}
use multilife.GameServer.{GameServer, on_tick, broadcast, total_counts, refresh_full_snapshot_cache}
use multilife.GameServer.Tick.{on_tick_lem, edited_world, settled}

module _ (p : ℕ) where
  insert-IsKnown :
      (q v : ℕ) (r : ResourceManager)
      → IsKnown p r
      → IsKnown p (record { balances = insert q v r.balances })
  insert-IsKnown q v r h e = ground (arith, find-insert q p v r.balances, e, h)

  pub add_player-IsKnown :
      (r : ResourceManager) (q : ℕ) → IsKnown p r → IsKnown p (add_player r q).0
  unfolding add_player
  add_player-IsKnown r q h = insert-IsKnown q _ r h

  try_spend-IsKnown :
      (r : ResourceManager) (q amount : ℕ) → IsKnown p r → IsKnown p (try_spend r q amount).0
  unfolding try_spend
  try_spend-IsKnown r q amount h = elim (Option-cases (find q r.balances)) [
    | inl free ↦ rw (free, try_spend) h
    | inr (balance, here) ↦ elim (Bool-cases (ltb balance amount)) [
      | inl short ↦ rw (here, try_spend, short) h
      | inr enough ↦ rw (here, try_spend, enough) (insert-IsKnown q _ r h)
    ]
  ]

  award-IsKnown :
      (r : ResourceManager) (q amount : ℕ) → IsKnown p r → IsKnown p (award r q amount).0
  unfolding award
  award-IsKnown r q amount h = elim (Option-cases (find q r.balances)) [
    | inl free ↦ rw (free, award) h
    | inr (balance, here) ↦ rw (here, award) (insert-IsKnown q _ r h)
  ]

  award_from_live_counts-IsKnown :
      (r : ResourceManager) (counts : List (ℕ × ℕ))
      → IsKnown p r
      → IsKnown p (award_from_live_counts r counts)
  unfolding award_from_live_counts award_live
  award_from_live_counts-IsKnown r counts h =
      each_keep (IsKnown p) counts award_live r h (λ count t k. insert-IsKnown count.0 _ t k)

  either-IsKnown :
      (b : Bool) (s t : CellState × ResourceManager)
      → IsKnown p s.1
      → IsKnown p t.1
      → IsKnown p (if b then s else t).1
  either-IsKnown true s t h k = h
  either-IsKnown false s t h k = k

  edit_cell-IsKnown :
      (t : CommandType) (q : ℕ) (cell : CellState) (r : ResourceManager)
      → IsKnown p r
      → IsKnown p (edit_cell t q cell r).1
  unfolding edit_cell
  edit_cell-IsKnown place_cell q cell r h =
      either-IsKnown (cell.owner == 0) _ (cell, r) (try_spend-IsKnown r q _ h) h
  edit_cell-IsKnown remove_cell q cell r h =
      either-IsKnown (cell.owner == q) _ (cell, r) (award-IsKnown r q _ h) h
  edit_cell-IsKnown toggle_cell q cell r h =
      either-IsKnown (cell.owner == 0 || cell.owner == q) _ (cell, r) (either cell.alive) h
    where
      either :
          (b : Bool) → IsKnown p (if b then award r q remove_award else try_spend r q place_cost).0
      either true = award-IsKnown r q _ h
      either false = try_spend-IsKnown r q _ h

  apply_commands-IsKnown :
      (cmds : List PlayerCommand) (s : ChunkMap × ResourceManager)
      → IsKnown p s.1
      → IsKnown p (apply_commands cmds s).1
  unfolding apply_commands apply_command
  apply_commands-IsKnown cmds s h =
      each_keep (λ (t : ChunkMap × ResourceManager). IsKnown p t.1) cmds apply_command s h
        (λ cmd t k. edit_cell-IsKnown cmd.type cmd.player_id _ t.1 k)

  broadcast-IsKnown :
      (counts : List (ℕ × ℕ)) (g : GameServer)
      → IsKnown p g.resources
      → IsKnown p (broadcast counts g).0.resources
  unfolding broadcast
  broadcast-IsKnown counts g h = elim (Bool-cases g.has_network) [
    | inl on ↦ rw on h
    | inr off ↦ rw off h
  ]

  pub on_tick-IsKnown : (g : GameServer) → IsKnown p g.resources → IsKnown p (on_tick g).0.resources
  unfolding refresh_full_snapshot_cache
  on_tick-IsKnown g h = rw (on_tick_lem g) (
      broadcast-IsKnown (total_counts (edited_world g).0) (settled g) (
        award_from_live_counts-IsKnown (edited_world g).1 _
          (apply_commands-IsKnown g.command_queue _ h)))

pub joined-IsKnown : (r : ResourceManager) (p : ℕ) → IsKnown p (add_player r p).0
unfolding add_player
joined-IsKnown r p e = ground (arith, find-insert p p start_balance r.balances, e)
