-- ===== src/ServerMain/Frame.antt =====
-- server/src/main.cpp, with server/src/BoostNetworkManager.cpp: what the handlers of the sockets leave alone.
use multilife.Prelude.{
  ◌≡◌, refl, sym, Bool, true, false, if◌then◌else◌, ◌==◌, inl, inr, Bool-cases, List, [], ◌∷◌, ◌++◌,
  append-nil, some, Option-cases, nat_eq, each, ℕ, take,
}
use multilife.Prelude.Map.{find, insert}
use multilife.Types.{PlayerCommand}
use multilife.Threads.{push}
use multilife.Wire.{msg_resync_req, handshake_size}
use multilife.GameServer.{on_commands_from_network}
use multilife.Sessions.Listener.{Listener, on_accept}
use multilife.Resources.{ResourceManager, add_player}
use multilife.Sessions.{
  NetworkManager, mark_session, on_handshake, is_command, read_command, body_size,
}
use multilife.ServerMain.{
  System, Connection, Reading, Handled, hand_on, handle_handshake, handle_type, handle_body,
  complete, read_done, read_failed, accept_done, new_session,
}
use multilife.ServerMain.Run.{
  Event, accepted, written, read, failed, worked, ticked, at_connection, write_bytes, step, serve,
}
use multilife.ServerMain.Completes.{Completes, by_handshake, by_type, by_body, complete-Completes}

-- Nothing happens to the world, the snapshot and what is sent or waits to be sent; the commands that are
-- handed on stand behind the others, in the queue and in the log.
pub record Frame (s t : System) : Type 0 where
  pub world : t.server.world ≡ s.server.world
  pub cached : t.server.cached_full_snapshot ≡ s.server.cached_full_snapshot
  pub network : t.server.has_network ≡ s.server.has_network
  pub running : t.server.running ≡ s.server.running
  pub posted : t.posted ≡ s.posted
  pub udp_sent : t.udp_sent ≡ s.udp_sent
  pub news : List PlayerCommand
  pub log : t.log ≡ s.log ++ news
  pub queue : t.server.command_queue ≡ s.server.command_queue ++ news

-- Balances, sessions, connections and the acceptor may change.
rewired :
    (s : System) (r : ResourceManager) (n : NetworkManager) (l : Listener)
    (connections : List (ℕ × Connection))
    → Frame s (record s {
      server = record s.server { resources = r };
      manager = n;
      listener = l;
      connections = connections;
    })
rewired s r n l connections = record {
  world = refl;
  cached = refl;
  network = refl;
  running = refl;
  posted = refl;
  udp_sent = refl;
  news = [];
  log = sym (append-nil s.log);
  queue = sym (append-nil s.server.command_queue);
}

unchanged : (s : System) → Frame s s
unchanged s = rewired s s.server.resources s.manager s.listener s.connections

reconnected :
    (s t : System) (connections : List (ℕ × Connection))
    → Frame s t
    → Frame s (record t { connections = connections })
reconnected s t connections f = record {
  world = f.world;
  cached = f.cached;
  network = f.network;
  running = f.running;
  posted = f.posted;
  udp_sent = f.udp_sent;
  news = f.news;
  log = f.log;
  queue = f.queue;
}

hand_on-Frame : (cmd : PlayerCommand) (s : System) → Frame s (hand_on cmd s)
unfolding hand_on on_commands_from_network each push
hand_on-Frame cmd s = record {
  world = refl;
  cached = refl;
  network = refl;
  running = refl;
  posted = refl;
  udp_sent = refl;
  news = cmd ∷ [];
  log = refl;
  queue = refl;
}

handle_handshake-Frame :
    (peer : ℕ) (bytes : List ℕ) (s : System) → Frame s (handle_handshake peer bytes s).0
unfolding handle_handshake
handle_handshake-Frame peer bytes s = elim (Option-cases (on_handshake bytes peer s.manager)) [
  | inl bad ↦ rw (bad, handle_handshake) (unchanged s)
  | inr (r, good) ↦
      rw (good, handle_handshake)
        (rewired s (add_player s.server.resources r.0).0 r.1 s.listener s.connections)
]

handle_type-Frame :
    (player_id msg_type : ℕ) (s : System) → Frame s (handle_type player_id msg_type s).0
unfolding handle_type
handle_type-Frame player_id msg_type s = elim (Bool-cases (msg_type == msg_resync_req)) [
  | inl resync ↦ rw resync (
      rewired s s.server.resources (mark_session true player_id s.manager) s.listener s.connections)
  | inr other ↦ elim (Bool-cases (is_command msg_type)) [
    | inl command ↦ rw (other, command) (unchanged s)
    | inr unknown ↦ rw (other, unknown) (unchanged s)
  ]
]

handle_body-Frame :
    (player_id msg_type : ℕ) (bytes : List ℕ) (s : System)
    → Frame s (handle_body player_id msg_type bytes s).0
unfolding handle_body
handle_body-Frame player_id msg_type bytes s =
    elim (Option-cases (read_command player_id msg_type bytes)) [
      | inl spoofed ↦ rw (spoofed, handle_body) (unchanged s)
      | inr (cmd, own) ↦ rw (own, handle_body) (hand_on-Frame cmd s)
    ]

pub Completes-Frame :
    (reading : Reading) (peer : ℕ) (wire : List ℕ) (s : System) (size : ℕ) (next : Handled)
    → Completes peer wire s size next reading
    → Frame s next.0
Completes-Frame _ peer wire s size next (by_handshake long e q) =
    rw q (handle_handshake-Frame peer (take handshake_size wire) s)
Completes-Frame _ peer wire s size next (by_type player_id b rest front e q) =
    rw q (handle_type-Frame player_id b s)
Completes-Frame _ peer wire s size next (by_body player_id msg_type long e q) =
    rw q (handle_body-Frame player_id msg_type (take body_size wire) s)

read_done-Frame : (i : ℕ) (c : Connection) (s : System) → Frame s (read_done i c s)
unfolding read_done
read_done-Frame i c s = elim (Option-cases (complete c.reading c.peer c.wire s)) [
  | inl waits ↦ rw (waits, read_done) (unchanged s)
  | inr ((size, next), done) ↦
      rw (done, read_done)
        (reconnected s next.0 _ (
          Completes-Frame c.reading c.peer c.wire s size next
            (complete-Completes c.reading c.peer c.wire s size next done)))
]

either-Frame : (b : Bool) (s t u : System) → Frame s t → Frame s u → Frame s (if b then t else u)
either-Frame true s t u f g = f
either-Frame false s t u f g = g

accept_done-Frame : (i peer : ℕ) (s : System) → Frame s (accept_done i peer s)
unfolding accept_done
accept_done-Frame i peer s =
    either-Frame s.listener.accepting s _ s
      (rewired s s.server.resources s.manager (on_accept false s.listener).1 (
        if (on_accept false s.listener).0
        then insert i (new_session peer) s.connections
        else s.connections))
      (unchanged s)

-- What holds if nothing happens, and after what is done with any connection.
pub at_connection_lem {ℓ} :
    (P : System → Type ℓ) (i : ℕ) (act : Connection → System → System) (s : System)
    → P s
    → ((c : Connection) → find i s.connections ≡ some c → P (act c s))
    → P (at_connection i act s)
unfolding at_connection
at_connection_lem P i act s same done = elim (Option-cases (find i s.connections)) [
  | inl free ↦ rw (free, at_connection) same
  | inr (c, here) ↦ rw (here, at_connection) (done c here)
]

-- An event that is neither a tick nor a piece of posted work.
unfoldable pub IsSocketEvent : Event → Type 0
IsSocketEvent (accepted i peer) = Unit
IsSocketEvent (written i bytes) = Unit
IsSocketEvent (read i) = Unit
IsSocketEvent (failed i) = Unit
IsSocketEvent worked = ⊥
IsSocketEvent ticked = ⊥

pub step-Frame : (e : Event) (s : System) → IsSocketEvent e → Frame s (step e s)
unfolding step IsSocketEvent write_bytes read_failed
step-Frame (accepted i peer) s h = elim (Option-cases (find i s.connections)) [
  | inl free ↦ rw (free, step) (accept_done-Frame i peer s)
  | inr (c, taken) ↦ rw (taken, step) (unchanged s)
]
step-Frame (written i bytes) s h =
    at_connection_lem (Frame s) i (write_bytes i bytes) s (unchanged s)
      (λ c here. rewired s s.server.resources s.manager s.listener _)
step-Frame (read i) s h =
    at_connection_lem (Frame s) i (read_done i) s (unchanged s) (λ c here. read_done-Frame i c s)
step-Frame (failed i) s h =
    at_connection_lem (Frame s) i (read_failed i) s (unchanged s)
      (λ c here. rewired s s.server.resources _ s.listener _)
step-Frame worked s h = absurd h
step-Frame ticked s h = absurd h

-- An invariant of every event holds whatever happens.
pub serve_keep {ℓ} :
    (P : System → Type ℓ)
    → ((e : Event) (s : System) → P s → P (step e s))
    → (events : List Event) (s : System) → P s
    → P (serve events s)
unfolding serve
serve_keep P keep [] s h = h
serve_keep P keep (e ∷ events) s h = serve_keep P keep events (step e s) (keep e s h)
