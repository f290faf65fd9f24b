-- ===== src/ServerMain/Completes.antt =====
-- server/src/BoostNetworkManager.cpp, `Session`: the ways in which the pending read of a session completes.
use multilife.Prelude.{
  ℕ, ◌≡◌, refl, ◌≤◌, ltb, inl, inr, Bool-cases, List, [], ◌∷◌, length, take, some, Option-cases,
  ◌==◌, nat_eq, arith,
}
use multilife.Wire.{handshake_size, msg_resync_req}
use multilife.Sessions.{body_size, on_handshake, is_command, read_command}
use multilife.ServerMain.{
  System, Reading, handshake, ended, message, body, Handled, handle_handshake, handle_type,
  handle_body, hand_on, complete,
}

-- Which handler ran, and with what.
pub data Completes (peer : ℕ) (wire : List ℕ) (s : System) (size : ℕ) (next : Handled)
    : Reading → Type 0 where
  by_handshake :
      handshake_size ≤ length wire
      → size ≡ handshake_size
      → next ≡ handle_handshake peer (take handshake_size wire) s
      → Completes peer wire s size next handshake
  by_type :
      (player_id b : ℕ) (rest : List ℕ)
      → wire ≡ b ∷ rest
      → size ≡ 1
      → next ≡ handle_type player_id b s
      → Completes peer wire s size next (message player_id)
  by_body :
      (player_id msg_type : ℕ)
      → body_size ≤ length wire
      → size ≡ body_size
      → next ≡ handle_body player_id msg_type (take body_size wire) s
      → Completes peer wire s size next (body player_id msg_type)

pub complete-Completes :
    (reading : Reading) (peer : ℕ) (wire : List ℕ) (s : System) (size : ℕ) (next : Handled)
    → complete reading peer wire s ≡ some (size, next)
    → Completes peer wire s size next reading
unfolding complete
complete-Completes handshake peer wire s size next e =
    elim (Bool-cases (ltb (length wire) handshake_size)) [
      | inl short ↦ cc (e, short)
      | inr long ↦ let e' = rw long at e in by_handshake (ground (arith, long)) (cc (e')) (cc (e'))
    ]
complete-Completes ended peer wire s size next e = cc (e)
complete-Completes (message player_id) peer [] s size next e = cc (e)
complete-Completes (message player_id) peer (b ∷ wire) s size next e =
    by_type player_id b wire refl (cc (e)) (cc (e))
complete-Completes (body player_id msg_type) peer wire s size next e =
    elim (Bool-cases (ltb (length wire) body_size)) [
      | inl short ↦ cc (e, short)
      | inr long ↦
          let e' = rw long at e in
          by_body player_id msg_type (ground (arith, long)) (cc (e')) (cc (e'))
    ]

-- No handler changes a connection; that is up to `read_done`.
connections-handshake :
    (peer : ℕ) (bytes : List ℕ) (s : System)
    → (handle_handshake peer bytes s).0.connections ≡ s.connections
unfolding handle_handshake
connections-handshake peer bytes s = elim (Option-cases (on_handshake bytes peer s.manager)) [
  | inl bad ↦ rw (bad, handle_handshake)
  | inr (r, good) ↦ rw (good, handle_handshake)
]

connections-type :
    (player_id b : ℕ) (s : System) → (handle_type player_id b s).0.connections ≡ s.connections
unfolding handle_type
connections-type player_id b s = elim (Bool-cases (b == msg_resync_req)) [
  | inl resync ↦ rw resync
  | inr other ↦ elim (Bool-cases (is_command b)) [
    | inl command ↦ rw (other, command)
    | inr unknown ↦ rw (other, unknown)
  ]
]

connections-body :
    (player_id b : ℕ) (bytes : List ℕ) (s : System)
    → (handle_body player_id b bytes s).0.connections ≡ s.connections
unfolding handle_body hand_on
connections-body player_id b bytes s = elim (Option-cases (read_command player_id b bytes)) [
  | inl spoofed ↦ rw (spoofed, handle_body)
  | inr (cmd, own) ↦ rw (own, handle_body)
]

pub connections-handled :
    (reading : Reading) (peer : ℕ) (wire : List ℕ) (s : System) (size : ℕ) (next : Handled)
    → Completes peer wire s size next reading
    → next.0.connections ≡ s.connections
connections-handled _ peer wire s size next (by_handshake long e q) =
    rw q (connections-handshake peer (take handshake_size wire) s)
connections-handled _ peer wire s size next (by_type player_id b rest front e q) =
    rw q (connections-type player_id b s)
connections-handled _ peer wire s size next (by_body player_id msg_type long e q) =
    rw q (connections-body player_id msg_type (take body_size wire) s)
