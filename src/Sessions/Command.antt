-- ===== src/Sessions/Command.antt =====
-- server/src/BoostNetworkManager.cpp, `readNextMessage`: one command, as client/src/GameNetworkClient.cpp
-- writes it.
use multilife.Prelude.{
  ℕ, ◌^◌, ◌<◌, ◌≡◌, refl, ◌==◌, inl, inr, if◌then◌else◌, Bool-cases, List, [], ◌++◌, length, drop,
  none, some, nat_eq, ==_iff, arith,
}
use multilife.Prelude.Int.{word_of, signed_of, IsInt64, signed-word64, word64-lt}
use multilife.Types.{PlayerCommand, CommandType, place_cell, remove_cell, toggle_cell}
use multilife.Wire.{
  write_le, read_le, length-write_le, read_le-write_le, drop-append, cmd_place, cmd_remove,
  cmd_toggle,
}
use multilife.Sessions.{command_type, read_command}

abbrev pub type_byte : CommandType → ℕ
type_byte place_cell = cmd_place
type_byte remove_cell = cmd_remove
type_byte toggle_cell = cmd_toggle

abbrev pub body_bytes : PlayerCommand → List ℕ
body_bytes c =
    write_le 8 c.player_id
    ++ (write_le 8 (word_of (2 ^ 64) c.x) ++ write_le 8 (word_of (2 ^ 64) c.y))

pub length-body_bytes : (c : PlayerCommand) → length (body_bytes c) ≡ 24
unfolding write_le
length-body_bytes c = refl

pub command_type-type_byte : (t : CommandType) → command_type (type_byte t) ≡ t
unfolding command_type
command_type-type_byte place_cell = refl
command_type-type_byte remove_cell = refl
command_type-type_byte toggle_cell = refl

read_player : (c : PlayerCommand) → c.player_id < 2 ^ 64 → read_le 8 (body_bytes c) ≡ c.player_id
read_player c h = read_le-write_le 8 c.player_id _ (omega (arith, h))

read_x :
    (c : PlayerCommand) → IsInt64 c.x → signed_of (2 ^ 64) (read_le 8 (drop 8 (body_bytes c))) ≡ c.x
read_x c h =
    rw
      (
        drop-append 8 (write_le 8 c.player_id)
            (write_le 8 (word_of (2 ^ 64) c.x) ++ write_le 8 (word_of (2 ^ 64) c.y))
            (length-write_le 8 c.player_id),
        read_le-write_le 8 (word_of (2 ^ 64) c.x) (write_le 8 (word_of (2 ^ 64) c.y))
            (omega (arith, word64-lt c.x)),
      )
      (signed-word64 c.x h)

drop_to_y : (c : PlayerCommand) → drop 16 (body_bytes c) ≡ write_le 8 (word_of (2 ^ 64) c.y) ++ []
unfolding write_le
drop_to_y c = refl

read_y :
    (c : PlayerCommand)
    → IsInt64 c.y
    → signed_of (2 ^ 64) (read_le 8 (drop 16 (body_bytes c))) ≡ c.y
read_y c h =
    rw (drop_to_y c, read_le-write_le 8 (word_of (2 ^ 64) c.y) [] (omega (arith, word64-lt c.y)))
      (signed-word64 c.y h)

own_command :
    (id : ℕ) (c : PlayerCommand)
    → (if c.player_id == id then some (record c { player_id = id }) else none)
      ≡ (if c.player_id == id then some c else none)
own_command id c = elim (Bool-cases (c.player_id == id)) [
  | inl mine ↦ let q = (==_iff c.player_id id).0 mine in rw (← q)
  | inr spoofed ↦ rw spoofed
]

-- The session understands what the client writes, and takes it in the player's own name only.
pub read_command-body_bytes :
    (id : ℕ) (c : PlayerCommand)
    → (c.player_id < 2 ^ 64) × IsInt64 c.x × IsInt64 c.y
    → read_command id (type_byte c.type) (body_bytes c)
      ≡ (if c.player_id == id then some c else none)
unfolding read_command
read_command-body_bytes id c (hp, hx, hy) =
    rw (read_player c hp, read_x c hx, read_y c hy, command_type-type_byte c.type)
      (own_command id c)
