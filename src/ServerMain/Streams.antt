-- ===== src/ServerMain/Streams.antt =====
-- server/src/main.cpp, with server/src/BoostNetworkManager.cpp: what a connection hands on, however its reads
-- fall between those of other connections and the ticks.
use multilife.Prelude.{
  ℕ, ◌≡◌, ◌≢◌, ◌≤◌, refl, sym, ◌∙◌, ap, Bool, true, false, if◌then◌else◌, inl, inr, List, ◌++◌,
  append_assoc, length, length-take, take, Option-cases, nat_eq, arith, each,
}
use multilife.Prelude.Map.{find, insert, Everywhere, Everywhere-insert}
use multilife.Types.{PlayerCommand}
use multilife.Wire.{handshake_size}
use multilife.GameServer
use multilife.GameServer.{refresh_full_snapshot_cache, on_commands_from_network}
use multilife.Sessions.{body_size}
use multilife.Sessions.Listener.{Answers, on_accept}
use multilife.ServerMain.{
  System, Connection, Reading, handshake, ended, Handled, complete, after_read, read_done,
  read_failed, new_session, accept_done, start_main, carry_out,
}
use multilife.ServerMain.Run.{
  Event, accepted, written, read, failed, worked, ticked, write_bytes, step, serve,
}
use multilife.ServerMain.Completes.{
  Completes, by_handshake, by_type, by_body, complete-Completes, connections-handled,
}
use multilife.ServerMain.Frame.{at_connection_lem, serve_keep}
use multilife.ServerMain.Posted.{tick-Ticks, work_done-Works}
use multilife.ServerMain.Commands.{
  commands_of, handle_handshake-commands_of, handle_type-commands_of, handle_body-commands_of,
}

-- What was handed on, and what is still to come, is what the session alone would have handed on.
abbrev pub IsExact : Connection → Type 0
IsExact c =
    (rest : List ℕ)
    → commands_of handshake (c.taken ++ rest) ≡ c.handed ++ commands_of c.reading rest

-- So it is until the session ends; then it has handed on a part at least, from the start on.
pub record IsFaithful (c : Connection) : Type 0 where
  pub exact : c.reading ≢ ended → IsExact c
  pub part :
      (rest : List ℕ)
      → (later : List PlayerCommand) × (commands_of handshake (c.taken ++ rest) ≡ c.handed ++ later)

IsExact-IsFaithful : (c : Connection) → IsExact c → IsFaithful c
IsExact-IsFaithful c h = record {
  exact = λ live. h;
  part = λ rest. (commands_of c.reading rest, h rest);
}

enough : (n : ℕ) (wire : List ℕ) → n ≤ length wire → length (take n wire) ≡ n
enough n wire h = omega (arith, length-take n wire)

-- The handler that runs takes its bytes off the stream.
Completes-commands_of :
    (reading : Reading) (peer : ℕ) (wire : List ℕ) (s : System) (size : ℕ) (next : Handled)
    → Completes peer wire s size next reading
    → (rest : List ℕ)
    → commands_of reading (take size wire ++ rest) ≡ next.1.1 ++ commands_of next.1.0 rest
Completes-commands_of _ peer wire s size next (by_handshake long e q) rest =
    rw (e, q)
      (handle_handshake-commands_of peer (take handshake_size wire) rest s
        (enough handshake_size wire long))
Completes-commands_of _ peer wire s size next (by_type id b tail front e q) rest =
    rw (e, q, front) (handle_type-commands_of id b rest s)
Completes-commands_of _ peer wire s size next (by_body id msg_type long e q) rest =
    rw (e, q)
      (handle_body-commands_of id msg_type (take body_size wire) rest s
        (enough body_size wire long))

pub Completes-size :
    (reading : Reading) (peer : ℕ) (wire : List ℕ) (s : System) (size : ℕ) (next : Handled)
    → Completes peer wire s size next reading
    → (1 ≤ size) × (size ≤ length wire) × (reading ≢ ended)
Completes-size _ peer wire s size next (by_handshake long e q) =
    (omega (arith, e), omega (arith, e, long), λ h. cc (h))
Completes-size _ peer wire s size next (by_type id b tail front e q) =
    (omega (arith, e), rw (front, e) (omega arith), λ h. cc (h))
Completes-size _ peer wire s size next (by_body id msg_type long e q) =
    (omega (arith, e), omega (arith, e, long), λ h. cc (h))

pub after_read-IsExact :
    (c : Connection) (s : System) (size : ℕ) (next : Handled)
    → Completes c.peer c.wire s size next c.reading
    → IsExact c
    → IsExact (after_read size c next.1)
after_read-IsExact c s size next d h rest =
    ap (commands_of handshake) (append_assoc c.taken (take size c.wire) rest)
    ∙ h (take size c.wire ++ rest)
    ∙ ap (λ (cmds : List PlayerCommand). c.handed ++ cmds)
        (Completes-commands_of c.reading c.peer c.wire s size next d rest)
    ∙ sym (append_assoc c.handed next.1.1 (commands_of next.1.0 rest))

abbrev pub AllFaithful : System → Type 0
AllFaithful s = Everywhere IsFaithful s.connections

store-AllFaithful :
    (i : ℕ) (c : Connection) (s : System)
    → IsFaithful c
    → AllFaithful s
    → Everywhere IsFaithful (insert i c s.connections)
store-AllFaithful i c s f h = Everywhere-insert IsFaithful i c s.connections f h

read_done-AllFaithful :
    (i : ℕ) (c : Connection) (s : System)
    → IsFaithful c
    → AllFaithful s
    → AllFaithful (read_done i c s)
unfolding read_done
read_done-AllFaithful i c s f h = elim (Option-cases (complete c.reading c.peer c.wire s)) [
  | inl waits ↦ rw (waits, read_done) h
  | inr ((size, next), done) ↦
      let d = complete-Completes c.reading c.peer c.wire s size next done in
      let live = (Completes-size c.reading c.peer c.wire s size next d).2 in
      rw (done, read_done, connections-handled c.reading c.peer c.wire s size next d)
        (store-AllFaithful i _ s
          (IsExact-IsFaithful _ (after_read-IsExact c s size next d (f.exact live))) h)
]

accept_done-AllFaithful :
    (i peer : ℕ) (s : System) → AllFaithful s → AllFaithful (accept_done i peer s)
unfolding accept_done
accept_done-AllFaithful i peer s h = accepting s.listener.accepting
  where
    started :
        (b : Bool)
        → Everywhere IsFaithful
            (if b then insert i (new_session peer) s.connections else s.connections)
    started true =
        store-AllFaithful i (new_session peer) s
          (IsExact-IsFaithful (new_session peer) (λ rest. refl)) h
    started false = h

    accepting :
        (b : Bool)
        → AllFaithful (
            if b
            then record s {
              listener = (on_accept false s.listener).1;
              connections =
                  if (on_accept false s.listener).0
                  then insert i (new_session peer) s.connections
                  else s.connections;
            }
            else s)
    accepting true = started (on_accept false s.listener).0
    accepting false = h

step-AllFaithful : (e : Event) (s : System) → AllFaithful s → AllFaithful (step e s)
unfolding step write_bytes read_failed
step-AllFaithful (accepted i peer) s h = elim (Option-cases (find i s.connections)) [
  | inl free ↦ rw (free, step) (accept_done-AllFaithful i peer s h)
  | inr (c, taken) ↦ rw (taken, step) h
]
step-AllFaithful (written i bytes) s h =
    at_connection_lem AllFaithful i (write_bytes i bytes) s h (λ c here.
      store-AllFaithful i _ s (record { exact = (h i c here).exact; part = (h i c here).part }) h)
step-AllFaithful (read i) s h =
    at_connection_lem AllFaithful i (read_done i) s h
      (λ c here. read_done-AllFaithful i c s (h i c here) h)
step-AllFaithful (failed i) s h = at_connection_lem AllFaithful i (read_failed i) s h (λ c here.
    store-AllFaithful i _ s
      (record { exact = λ live. absurd (live refl); part = (h i c here).part }) h)
step-AllFaithful worked s h = rw (work_done-Works s.posted s).connections h
step-AllFaithful ticked s h = rw (tick-Ticks s).connections h

start_main-AllFaithful : (answers : Answers) → AllFaithful (start_main answers)
unfolding start_main carry_out each GameServer.start refresh_full_snapshot_cache find
start_main-AllFaithful answers i c e = cc (e)

-- Whatever happens while the server runs, on whatever other connections: every connection that has not
-- ended has handed on exactly the commands that `run_session` alone would have handed on of the bytes
-- taken so far, and those of all bytes that may follow are still to come; one that has ended has handed
-- on the first of them.
pub serve-AllFaithful :
    (answers : Answers) (events : List Event) → AllFaithful (serve events (start_main answers))
serve-AllFaithful answers events =
    serve_keep AllFaithful step-AllFaithful events (start_main answers)
      (start_main-AllFaithful answers)
