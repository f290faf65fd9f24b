-- ===== src/ServerMain/Players.antt =====
-- server/src/main.cpp, with server/src/BoostNetworkManager.cpp: the players while the server runs.
use multilife.Prelude.{
  ℕ, refl, Bool, true, false, if◌then◌else◌, inl, inr, List, [], ◌∷◌, Option-cases, nat_eq, each,
}
use multilife.Prelude.Map.{find, insert, Everywhere-insert}
use multilife.Resources.{ResourceManager}
use multilife.Resources.Known.{on_tick-IsKnown}
use multilife.GameServer
use multilife.GameServer.{
  GameServer, on_commands_from_network, refresh_full_snapshot_cache, get_full_snapshot_for_seq,
  on_tick,
}
use multilife.Sessions.{NetworkManager, session_infos}
use multilife.Sessions.Listener.{Answers, on_accept}
use multilife.ServerMain.{
  System, Connection, Reading, handshake, ended, message, body, Work, udp_broadcast,
  stats_broadcast, complete, read_done, forget, read_failed, new_session, accept_done, start_main,
  carry_out,
}
use multilife.ServerMain.Run.{
  tick, do_work, work_done, Event, accepted, written, read, failed, worked, ticked, write_bytes,
  step, serve,
}
use multilife.ServerMain.Frame.{at_connection_lem, serve_keep}
use multilife.ServerMain.Posted.{tick-Ticks}
use multilife.ServerMain.Registry.{
  SessionsFit, SessionsFit-remove_session, SessionsFit-send_infos, SessionsFit-grow,
}
use multilife.ServerMain.Completes.{complete-Completes, connections-handled}
use multilife.ServerMain.Handlers.{
  Grows, ReaderFits, ReadersFit, IsReaderOf, ReadersFit-grow, LogFits-grow, IsRegistered,
  Completes-HandledFits,
}

read_done-IsRegistered :
    (i : ℕ) (c : Connection) (s : System)
    → ReaderFits c.reading s.server.resources
    → IsRegistered s
    → IsRegistered (read_done i c s)
unfolding read_done
read_done-IsRegistered i c s known h = elim (Option-cases (complete c.reading c.peer c.wire s)) [
  | inl waits ↦ rw (waits, read_done) h
  | inr ((size, next), done) ↦
      let d = complete-Completes c.reading c.peer c.wire s size next done in
      let f = Completes-HandledFits c.reading c.peer c.wire s size next d known h in
      rw (done, read_done)
        (record {
          sessions = f.sessions;
          readers =
              Everywhere-insert (IsReaderOf next.0.server.resources) i _ next.0.connections f.reader
                (rw (connections-handled c.reading c.peer c.wire s size next d)
                  (ReadersFit-grow s.connections _ _ f.grows h.readers));
          log = f.log;
        })
]

SessionsFit-forget :
    (reading : Reading) (r : ResourceManager) (n : NetworkManager)
    → SessionsFit r n
    → SessionsFit r (forget reading n)
unfolding forget
SessionsFit-forget handshake r n h = h
SessionsFit-forget ended r n h = h
SessionsFit-forget (message id) r n h = SessionsFit-remove_session r n id h
SessionsFit-forget (body id msg_type) r n h = SessionsFit-remove_session r n id h

read_failed-IsRegistered :
    (i : ℕ) (c : Connection) (s : System) → IsRegistered s → IsRegistered (read_failed i c s)
unfolding read_failed ReaderFits
read_failed-IsRegistered i c s h = record {
  sessions = SessionsFit-forget c.reading s.server.resources s.manager h.sessions;
  readers = Everywhere-insert (IsReaderOf s.server.resources) i _ s.connections tt h.readers;
  log = h.log;
}

accept_done-IsRegistered :
    (i peer : ℕ) (s : System) → IsRegistered s → IsRegistered (accept_done i peer s)
unfolding accept_done ReaderFits
accept_done-IsRegistered i peer s h = accepting s.listener.accepting
  where
    started :
        (b : Bool)
        → ReadersFit
            (if b then insert i (new_session peer) s.connections else s.connections)
            s.server.resources
    started true = Everywhere-insert (IsReaderOf s.server.resources) i _ s.connections tt h.readers
    started false = h.readers

    accepting :
        (b : Bool)
        → IsRegistered (
            if b
            then record s {
              listener = (on_accept false s.listener).1;
              connections =
                  if (on_accept false s.listener).0
                  then insert i (new_session peer) s.connections
                  else s.connections;
            }
            else s)
    accepting true = record {
      sessions = h.sessions;
      readers = started (on_accept false s.listener).0;
      log = h.log;
    }
    accepting false = h

tick-IsRegistered : (s : System) → IsRegistered s → IsRegistered (tick s)
tick-IsRegistered s h =
    let t = tick-Ticks s in
    let more : Grows s.server.resources (on_tick s.server).0.resources =
      λ p. on_tick-IsKnown p s.server in
    let grown = SessionsFit-grow s.server.resources _ s.manager more h.sessions in
    record {
      sessions = rw t.server (record {
        endpoints = rw (t.sessions, t.udp_endpoints) grown.endpoints;
        named = rw t.sessions grown.named;
      });
      readers = rw (t.connections, t.server) (ReadersFit-grow s.connections _ _ more h.readers);
      log = rw (t.log, t.server) (LogFits-grow s.log _ _ more h.log);
    }

do_work-IsRegistered : (w : Work) (s : System) → IsRegistered s → IsRegistered (do_work w s)
unfolding do_work
do_work-IsRegistered (udp_broadcast payload seq) s h = record {
  sessions =
      SessionsFit-send_infos s.server.resources (get_full_snapshot_for_seq s.server seq) payload
        (session_infos s.manager.sessions s.manager.udp_endpoints) s.manager h.sessions;
  readers = h.readers;
  log = h.log;
}
do_work-IsRegistered (stats_broadcast payload) s h = record {
  sessions = h.sessions;
  readers = h.readers;
  log = h.log;
}

work_done-IsRegistered :
    (posted : List Work) (s : System) → IsRegistered s → IsRegistered (work_done posted s)
unfolding work_done
work_done-IsRegistered [] s h = h
work_done-IsRegistered (w ∷ posted) s h = begun s.listener.io_thread
  where
    begun : (b : Bool) → IsRegistered (if b then do_work w (record s { posted = posted }) else s)
    begun true =
        do_work-IsRegistered w (record s { posted = posted })
          (record { sessions = h.sessions; readers = h.readers; log = h.log })
    begun false = h

step-IsRegistered : (e : Event) (s : System) → IsRegistered s → IsRegistered (step e s)
unfolding step write_bytes
step-IsRegistered (accepted i peer) s h = elim (Option-cases (find i s.connections)) [
  | inl free ↦ rw (free, step) (accept_done-IsRegistered i peer s h)
  | inr (c, taken) ↦ rw (taken, step) h
]
step-IsRegistered (written i bytes) s h =
    at_connection_lem IsRegistered i (write_bytes i bytes) s h (λ c here. record {
      sessions = h.sessions;
      readers =
          Everywhere-insert (IsReaderOf s.server.resources) i _ s.connections (h.readers i c here)
            h.readers;
      log = h.log;
    })
step-IsRegistered (read i) s h =
    at_connection_lem IsRegistered i (read_done i) s h
      (λ c here. read_done-IsRegistered i c s (h.readers i c here) h)
step-IsRegistered (failed i) s h =
    at_connection_lem IsRegistered i (read_failed i) s h
      (λ c here. read_failed-IsRegistered i c s h)
step-IsRegistered worked s h = work_done-IsRegistered s.posted s h
step-IsRegistered ticked s h = tick-IsRegistered s h

start_main-IsRegistered : (answers : Answers) → IsRegistered (start_main answers)
unfolding start_main carry_out each GameServer.start refresh_full_snapshot_cache find
start_main-IsRegistered answers = record {
  sessions = record { endpoints = λ id. (λ e. refl, λ e. refl); named = λ id s e. cc (e) };
  readers = λ i c e. cc (e);
  log = tt;
}

-- Whatever happens while the server runs: each session has an endpoint and each endpoint a session, the
-- session of an id is of that player, who has a balance, every connection that reads messages is of a
-- player who has a balance, and so is every command that was ever handed on.
pub serve-IsRegistered :
    (answers : Answers) (events : List Event) → IsRegistered (serve events (start_main answers))
serve-IsRegistered answers events =
    serve_keep IsRegistered step-IsRegistered events (start_main answers)
      (start_main-IsRegistered answers)
