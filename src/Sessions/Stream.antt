-- ===== src/Sessions/Stream.antt =====
-- server/src/BoostNetworkManager.cpp, `Session`, on the stream that client/src/GameNetworkClient.cpp
-- writes: a handshake, and then commands and requests for a resynchronisation.
use multilife.Prelude.{
  ℕ, zero, suc, ◌+◌, ◌^◌, ◌<◌, ◌≡◌, refl, sym, ◌∙◌, true, false, ◌==◌, ltb, inl, inr, if◌then◌else◌,
  Bool-cases, List, [], ◌∷◌, ◌++◌, length, length-append, append-nil, drop, All, none, some, nat_eq,
  arith,
}
use multilife.Prelude.Int.{IsInt64}
use multilife.Prelude.Map.{find, insert, find-erase}
use multilife.Types.{PlayerCommand, CommandType, place_cell, remove_cell, toggle_cell}
use multilife.Wire.{
  write_le, read_le, length-write_le, read_le-write_le, drop-append, take-append, magic,
  msg_resync_req,
}
use multilife.Sessions.{
  NetworkManager, on_handshake, remove_session, mark_session, read_command, prepend_command,
  read_messages, run_session, is_command,
}
use multilife.Client.Network.{command_bytes, handshake_bytes}
use multilife.Sessions.Command.{type_byte, body_bytes, length-body_bytes, read_command-body_bytes}

-- What a client may write: a command, in whatever player's name, or a request for a snapshot.
pub data Message : Type 0 where
  command : PlayerCommand → Message
  resync : Message

-- The bytes of `sendCommand` and `sendResync`.
unfoldable pub message_bytes : Message → List ℕ
message_bytes (command c) = command_bytes c.player_id (type_byte c.type) c.x c.y
message_bytes resync = msg_resync_req ∷ []

unfoldable pub stream_bytes : List Message → List ℕ
stream_bytes [] = []
stream_bytes (s ∷ ss) = message_bytes s ++ stream_bytes ss

-- The fields are 64-bit numbers.
unfoldable pub MessageFits : Message → Type 0
MessageFits (command c) = (c.player_id < 2 ^ 64) × IsInt64 c.x × IsInt64 c.y
MessageFits resync = Unit

-- The commands that should come out: those in the session's own name, in order.
unfoldable pub delivered : ℕ → List Message → List PlayerCommand
delivered id [] = []
delivered id (command c ∷ ss) = if c.player_id == id then c ∷ delivered id ss else delivered id ss
delivered id (resync ∷ ss) = delivered id ss

is_command_byte :
    (t : CommandType)
    → (is_command (type_byte t) ≡ true) × ((type_byte t == msg_resync_req) ≡ false)
is_command_byte place_cell = (refl, refl)
is_command_byte remove_cell = (refl, refl)
is_command_byte toggle_cell = (refl, refl)

long_enough : (c : PlayerCommand) (rest : List ℕ) → ltb (length (body_bytes c ++ rest)) 24 ≡ false
long_enough c rest = ground (arith, length-append (body_bytes c) rest, length-body_bytes c)

read_step :
    (fuel id : ℕ) (c : PlayerCommand) (rest : List ℕ) (n : NetworkManager)
    → read_messages (suc fuel) id (type_byte c.type ∷ (body_bytes c ++ rest)) n
      ≡ prepend_command
          (read_command id (type_byte c.type) (body_bytes c))
          (read_messages fuel id rest n)
unfolding read_messages
read_step fuel id c rest n =
    let t = is_command_byte c.type in
    rw (
      t.0,
      t.1,
      long_enough c rest,
      take-append 24 (body_bytes c) rest (length-body_bytes c),
      drop-append 24 (body_bytes c) rest (length-body_bytes c),
    )

resync_step :
    (fuel id : ℕ) (rest : List ℕ) (n : NetworkManager)
    → read_messages (suc fuel) id (msg_resync_req ∷ rest) n
      ≡ read_messages fuel id rest (mark_session true id n)
unfolding read_messages
resync_step fuel id rest n = refl

end_step :
    (fuel id : ℕ) (n : NetworkManager)
    → read_messages (suc fuel) id [] n ≡ ([], remove_session id n)
unfolding read_messages
end_step fuel id n = refl

-- The manager when the stream has ended: the session marked for each request, and then removed.
unfoldable at_end : ℕ → List Message → NetworkManager → NetworkManager
at_end id [] n = remove_session id n
at_end id (command c ∷ ss) n = at_end id ss n
at_end id (resync ∷ ss) n = at_end id ss (mark_session true id n)

deliver :
    (id : ℕ) (c : PlayerCommand) (ss : List Message) (n : NetworkManager)
    → prepend_command (if c.player_id == id then some c else none) (delivered id ss, n)
      ≡ (if c.player_id == id then c ∷ delivered id ss else delivered id ss, n)
deliver id c ss n = elim (Bool-cases (c.player_id == id)) [
  | inl mine ↦ rw mine
  | inr spoofed ↦ rw spoofed
]

read_messages-stream_bytes :
    (fuel id : ℕ) (ss : List Message) (n : NetworkManager)
    → All MessageFits ss
    → length (stream_bytes ss) < fuel
    → read_messages fuel id (stream_bytes ss) n ≡ (delivered id ss, at_end id ss n)
unfolding stream_bytes message_bytes MessageFits command_bytes delivered at_end
read_messages-stream_bytes zero id ss n h enough = absurd (omega arith)
read_messages-stream_bytes (suc fuel) id [] n h enough = end_step fuel id n
read_messages-stream_bytes (suc fuel) id (resync ∷ ss) n h enough =
    resync_step fuel id (stream_bytes ss) n
    ∙ read_messages-stream_bytes fuel id ss (mark_session true id n) h.1 (omega arith)
read_messages-stream_bytes (suc fuel) id (command c ∷ ss) n h enough =
    read_step fuel id c (stream_bytes ss) n
    ∙ rw
        (
          read_command-body_bytes id c h.0,
          read_messages-stream_bytes fuel id ss n h.1
              (omega (arith, length-append (body_bytes c) (stream_bytes ss), length-body_bytes c)),
        )
        (deliver id c ss (at_end id ss n))

find-at_end :
    (id : ℕ) (ss : List Message) (n : NetworkManager) → find id (at_end id ss n).sessions ≡ none
unfolding at_end remove_session
find-at_end id [] n = find-erase id id n.sessions ∙ ground arith
find-at_end id (command c ∷ ss) n = find-at_end id ss n
find-at_end id (resync ∷ ss) n = find-at_end id ss (mark_session true id n)

abbrev joined : ℕ → ℕ → NetworkManager → NetworkManager
joined id peer n = record n {
  sessions =
      insert id (record { player_id = id; handshake_done = true; needs_full_snapshot = true })
        n.sessions;
  udp_endpoints = insert id peer n.udp_endpoints;
}

length-handshake_bytes : (id : ℕ) → length (handshake_bytes id) ≡ 12
unfolding handshake_bytes write_le
length-handshake_bytes id = refl

read_id : (id : ℕ) → id < 2 ^ 64 → read_le 8 (drop 4 (handshake_bytes id)) ≡ id
unfolding handshake_bytes
read_id id h =
    rw
      (
        drop-append 4 (write_le 4 magic) (write_le 8 id) (length-write_le 4 magic),
        sym (append-nil (write_le 8 id)),
      )
      (read_le-write_le 8 id [] (omega (arith, h)))

read_magic : (id : ℕ) → read_le 4 (handshake_bytes id) ≡ magic
unfolding handshake_bytes
read_magic id = read_le-write_le 4 magic (write_le 8 id) (omega arith)

on_handshake-handshake_bytes :
    (id peer : ℕ) (n : NetworkManager)
    → id < 2 ^ 64
    → on_handshake (handshake_bytes id) peer n ≡ some (id, joined id peer n)
unfolding on_handshake
on_handshake-handshake_bytes id peer n h = rw (read_magic id, read_id id h)

run_session_lem :
    (id peer : ℕ) (rest : List ℕ) (n : NetworkManager)
    → id < 2 ^ 64
    → run_session (handshake_bytes id ++ rest) peer n ≡ (
      id ∷ [],
      read_messages (length (handshake_bytes id ++ rest) + 1) id rest (joined id peer n),
    )
unfolding run_session
run_session_lem id peer rest n h =
    rw
      (
        take-append 12 (handshake_bytes id) rest (length-handshake_bytes id),
        on_handshake-handshake_bytes id peer n h,
      )
      (rw (drop-append 12 (handshake_bytes id) rest (length-handshake_bytes id))
        (ground (arith, length-append (handshake_bytes id) rest, length-handshake_bytes id)))

-- A connection that sends a handshake and then any messages, all of whose numbers fit: the player is
-- added once, exactly the commands in the player's own name are handed on, in order and unchanged, and
-- at the end no session of the player is left.
pub run_session-stream_bytes :
    (id peer : ℕ) (ss : List Message) (n : NetworkManager)
    → id < 2 ^ 64
    → All MessageFits ss
    → ((run_session (handshake_bytes id ++ stream_bytes ss) peer n).0 ≡ id ∷ [])
      × ((run_session (handshake_bytes id ++ stream_bytes ss) peer n).1.0 ≡ delivered id ss)
      × (find id (run_session (handshake_bytes id ++ stream_bytes ss) peer n).1.1.sessions ≡ none)
run_session-stream_bytes id peer ss n h fits =
    rw
      (
        run_session_lem id peer (stream_bytes ss) n h,
        read_messages-stream_bytes (length (handshake_bytes id ++ stream_bytes ss) + 1) id ss
            (joined id peer n) fits
            (omega (arith, length-append (handshake_bytes id) (stream_bytes ss))),
      )
      (refl, refl, find-at_end id ss (joined id peer n))
