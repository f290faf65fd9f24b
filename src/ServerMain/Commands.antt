-- ===== src/ServerMain/Commands.antt =====
-- server/src/BoostNetworkManager.cpp, `Session`: the commands that come of a stream, as `run_session` reads it at
-- once and as the reads of a connection take it piece by piece.
use multilife.Prelude.{
  ℕ, zero, suc, ◌+◌, ◌≡◌, ◌⊎◌, ◌<◌, refl, ◌∙◌, ap, true, false, ◌==◌, ltb, if◌then◌else◌, inl, inr,
  Bool-cases, List, [], ◌∷◌, ◌++◌, length, length-append, length-drop, take, drop, Option, none,
  some, Option-cases, arith, nat_eq,
}
use multilife.Prelude.Map.{insert}
use multilife.Types.{PlayerCommand}
use multilife.Wire.{handshake_size, msg_resync_req, take-append, drop-append, read_le, magic}
use multilife.Sessions.{
  NetworkManager, on_handshake, mark_session, read_command, prepend_command, read_messages,
  run_session, is_command, body_size,
}
use multilife.ServerMain.{
  System, Reading, handshake, ended, message, body, no_sessions, handle_handshake, handle_type,
  handle_body,
}

prepend_command_same :
    (o : Option PlayerCommand) (r r' : List PlayerCommand × NetworkManager)
    → r.0 ≡ r'.0
    → (prepend_command o r).0 ≡ (prepend_command o r').0
prepend_command_same none r r' h = h
prepend_command_same (some cmd) r r' h = ap (λ (cmds : List PlayerCommand). cmd ∷ cmds) h

-- The commands that `readNextMessage` hands on do not depend on the sessions, nor on more fuel than needed.
read_messages_steady :
    (fuel fuel' id : ℕ) (stream : List ℕ) (n n' : NetworkManager)
    → length stream < fuel
    → length stream < fuel'
    → (read_messages fuel id stream n).0 ≡ (read_messages fuel' id stream n').0
unfolding read_messages
read_messages_steady zero fuel' id stream n n' h h' = absurd (omega arith)
read_messages_steady (suc fuel) zero id stream n n' h h' = absurd (omega arith)
read_messages_steady (suc fuel) (suc fuel') id [] n n' h h' = refl
read_messages_steady (suc fuel) (suc fuel') id (b ∷ stream) n n' h h' =
    elim (Bool-cases (b == msg_resync_req)) [
      | inl resync ↦
          rw resync (read_messages_steady fuel fuel' id stream _ _ (omega arith) (omega arith))
      | inr other ↦ elim (Bool-cases (is_command b)) [
        | inl command ↦ elim (Bool-cases (ltb (length stream) body_size)) [
          | inl short ↦ rw (other, command, short)
          | inr long ↦
              rw (other, command, long)
                (prepend_command_same (read_command id b (take body_size stream)) _ _ (
                  read_messages_steady fuel fuel' id (drop body_size stream) n n'
                    (omega (arith, length-drop body_size stream))
                    (omega (arith, length-drop body_size stream))))
        ]
        | inr unknown ↦
            rw (other, unknown)
              (read_messages_steady fuel fuel' id stream n n' (omega arith) (omega arith))
      ]
    ]

abbrev command_list : Option PlayerCommand → List PlayerCommand
command_list none = []
command_list (some cmd) = cmd ∷ []

-- What `read_messages` makes of the stream that follows.
abbrev pub messages_of : ℕ → List ℕ → List PlayerCommand
messages_of id stream = (read_messages (suc (length stream)) id stream no_sessions).0

-- The commands that are still to come of a connection that waits for this read, and of which these bytes
-- are all that comes.
unfoldable pub commands_of : Reading → List ℕ → List PlayerCommand
commands_of handshake stream = (run_session stream 0 no_sessions).1.0
commands_of ended stream = []
commands_of (message player_id) stream = messages_of player_id stream
commands_of (body player_id msg_type) stream =
    if ltb (length stream) body_size
    then []
    else command_list (read_command player_id msg_type (take body_size stream))
      ++ messages_of player_id (drop body_size stream)

prepend_command_lem :
    (o : Option PlayerCommand) (r : List PlayerCommand × NetworkManager)
    → (prepend_command o r).0 ≡ command_list o ++ r.0
prepend_command_lem none r = refl
prepend_command_lem (some cmd) r = refl

read_step :
    (fuel id b : ℕ) (stream : List ℕ) (n : NetworkManager)
    → (read_messages (suc fuel) id (b ∷ stream) n).0 ≡ (
        if b == msg_resync_req
        then (read_messages fuel id stream (mark_session true id n)).0
        else (if is_command b
            then (if ltb (length stream) body_size
                then []
                else (prepend_command
                    (read_command id b (take body_size stream))
                    (read_messages fuel id (drop body_size stream) n)).0)
            else (read_messages fuel id stream n).0))
unfolding read_messages
read_step fuel id b stream n = elim (Bool-cases (b == msg_resync_req)) [
  | inl resync ↦ rw resync
  | inr other ↦ elim (Bool-cases (is_command b)) [
    | inl command ↦ elim (Bool-cases (ltb (length stream) body_size)) [
      | inl short ↦ rw (other, command, short)
      | inr long ↦ rw (other, command, long)
    ]
    | inr unknown ↦ rw (other, unknown)
  ]
]

pub handle_type-commands_of :
    (id b : ℕ) (stream : List ℕ) (s : System)
    → commands_of (message id) (b ∷ stream)
      ≡ (handle_type id b s).1.1 ++ commands_of (handle_type id b s).1.0 stream
unfolding commands_of handle_type
handle_type-commands_of id b stream s =
    read_step (suc (length stream)) id b stream no_sessions
    ∙ (elim (Bool-cases (b == msg_resync_req)) [
      | inl resync ↦ rw resync (
          read_messages_steady (suc (length stream)) (suc (length stream)) id stream
            (mark_session true id no_sessions) no_sessions (omega arith) (omega arith))
      | inr other ↦ elim (Bool-cases (is_command b)) [
        | inl command ↦ elim (Bool-cases (ltb (length stream) body_size)) [
          | inl short ↦ rw (other, command, short)
          | inr long ↦
              rw (other, command, long)
                (prepend_command_lem (read_command id b (take body_size stream)) _
                  ∙ ap
                      (λ (cmds : List PlayerCommand).
                        command_list (read_command id b (take body_size stream)) ++ cmds)
                      (read_messages_steady (suc (length stream))
                        (suc (length (drop body_size stream))) id (drop body_size stream)
                        no_sessions no_sessions (omega (arith, length-drop body_size stream))
                        (omega arith)))
        ]
        | inr unknown ↦ rw (other, unknown)
      ]
    ])

pub handle_body-commands_of :
    (id msg_type : ℕ) (bytes stream : List ℕ) (s : System)
    → length bytes ≡ body_size
    → commands_of (body id msg_type) (bytes ++ stream)
      ≡ (handle_body id msg_type bytes s).1.1
        ++ commands_of (handle_body id msg_type bytes s).1.0 stream
unfolding commands_of handle_body
handle_body-commands_of id msg_type bytes stream s e =
    rw (long_enough, take-append body_size bytes stream e, drop-append body_size bytes stream e)
      (handled (Option-cases (read_command id msg_type bytes)))
  where
    long_enough : ltb (length (bytes ++ stream)) body_size ≡ false
    long_enough = ground (arith, length-append bytes stream, e)

    handled :
        (read_command id msg_type bytes ≡ none)
          ⊎ ((cmd : PlayerCommand) × (read_command id msg_type bytes ≡ some cmd))
        → command_list (read_command id msg_type bytes) ++ messages_of id stream
          ≡ (handle_body id msg_type bytes s).1.1
            ++ commands_of (handle_body id msg_type bytes s).1.0 stream
    handled (inl spoofed) = rw (spoofed, handle_body)
    handled (inr (cmd, own)) = rw (own, handle_body)

abbrev welcome : ℕ → NetworkManager
welcome id = record {
  sessions =
      insert id (record { player_id = id; handshake_done = true; needs_full_snapshot = true }) [];
  udp_endpoints = insert id 0 [];
  seq_num = 0;
}

welcome_lem :
    (bytes : List ℕ)
    → (read_le 4 bytes == magic) ≡ true
    → on_handshake bytes 0 no_sessions
      ≡ some (read_le 8 (drop 4 bytes), welcome (read_le 8 (drop 4 bytes)))
unfolding on_handshake
welcome_lem bytes good = rw good

refusal :
    (bytes : List ℕ) (peer : ℕ) (n : NetworkManager)
    → (read_le 4 bytes == magic) ≡ false
    → on_handshake bytes peer n ≡ none
unfolding on_handshake
refusal bytes peer n bad = rw bad

module _ (bytes stream : List ℕ) (e : length bytes ≡ handshake_size) where
  long : ltb (length (bytes ++ stream)) handshake_size ≡ false
  long = ground (arith, length-append bytes stream, e)

  run_good :
      (read_le 4 bytes == magic) ≡ true
      → run_session (bytes ++ stream) 0 no_sessions ≡ (
        read_le 8 (drop 4 bytes) ∷ [],
        read_messages
            (length (bytes ++ stream) + 1)
            (read_le 8 (drop 4 bytes))
            stream
            (welcome (read_le 8 (drop 4 bytes))),
      )
  unfolding run_session
  run_good good =
      rw (long, take-append handshake_size bytes stream e, welcome_lem bytes good)
        (rw (drop-append handshake_size bytes stream e))

  run_bad :
      (read_le 4 bytes == magic) ≡ false
      → run_session (bytes ++ stream) 0 no_sessions ≡ ([], ([], no_sessions))
  unfolding run_session
  run_bad bad =
      rw (long, take-append handshake_size bytes stream e, refusal bytes 0 no_sessions bad)

  -- Either the magic number is bad, or the messages of the player follow.
  run_session_lem :
      commands_of handshake (bytes ++ stream)
      ≡ (if read_le 4 bytes == magic then messages_of (read_le 8 (drop 4 bytes)) stream else [])
  unfolding commands_of
  run_session_lem = elim (Bool-cases (read_le 4 bytes == magic)) [
    | inl good ↦
        ap (λ (r : List ℕ × (List PlayerCommand × NetworkManager)). r.1.0) (run_good good)
        ∙ rw good (
            read_messages_steady (length (bytes ++ stream) + 1) (suc (length stream))
              (read_le 8 (drop 4 bytes)) stream (welcome (read_le 8 (drop 4 bytes))) no_sessions
              (omega (arith, length-append bytes stream)) (omega arith))
    | inr bad ↦
        ap (λ (r : List ℕ × (List PlayerCommand × NetworkManager)). r.1.0) (run_bad bad) ∙ rw bad
  ]

pub handle_handshake-commands_of :
    (peer : ℕ) (bytes stream : List ℕ) (s : System)
    → length bytes ≡ handshake_size
    → commands_of handshake (bytes ++ stream)
      ≡ (handle_handshake peer bytes s).1.1
        ++ commands_of (handle_handshake peer bytes s).1.0 stream
unfolding handle_handshake on_handshake commands_of
handle_handshake-commands_of peer bytes stream s e =
    run_session_lem bytes stream e ∙ (elim (Bool-cases (read_le 4 bytes == magic)) [
      | inl good ↦ rw (good, handle_handshake) refl
      | inr bad ↦ rw (refusal bytes peer s.manager bad, bad, handle_handshake)
    ])
