-- ===== src/ServerMain/Posted.antt =====
-- server/src/main.cpp, with server/src/BoostNetworkManager.cpp: what a tick and a piece of posted work leave
-- alone.
use multilife.Prelude.{
  ℕ, ◌≡◌, refl, ◌∙◌, Bool, true, false, if◌then◌else◌, List, [], ◌∷◌, each_keep, inl, inr,
  Option-cases, nat_eq,
}
use multilife.Prelude.Map.{find}
use multilife.GameServer.{Effect, on_tick, get_full_snapshot_for_seq}
use multilife.Sessions.{NetworkManager, SessionInfo, send_infos, mark_session, session_infos}
use multilife.ServerMain.Run.{post_effect, tick, do_work, work_done}
use multilife.ServerMain.{System, Work, udp_broadcast, stats_broadcast}

-- But for the server, only what waits to be sent changes, and the number of the last broadcast.
pub record Ticks (s t : System) : Type 0 where
  pub server : t.server ≡ (on_tick s.server).0
  pub sessions : t.manager.sessions ≡ s.manager.sessions
  pub udp_endpoints : t.manager.udp_endpoints ≡ s.manager.udp_endpoints
  pub listener : t.listener ≡ s.listener
  pub connections : t.connections ≡ s.connections
  pub udp_sent : t.udp_sent ≡ s.udp_sent
  pub log : t.log ≡ s.log

post_effect-Ticks : (s : System) (e : Effect) (t : System) → Ticks s t → Ticks s (post_effect e t)
unfolding post_effect
post_effect-Ticks s (Effect.world_update seq_num []) t h = h
post_effect-Ticks s (Effect.world_update seq_num (b ∷ bytes)) t h = record {
  server = h.server;
  sessions = h.sessions;
  udp_endpoints = h.udp_endpoints;
  listener = h.listener;
  connections = h.connections;
  udp_sent = h.udp_sent;
  log = h.log;
}
post_effect-Ticks s (Effect.server_stats []) t h = h
post_effect-Ticks s (Effect.server_stats (b ∷ bytes)) t h = record {
  server = h.server;
  sessions = h.sessions;
  udp_endpoints = h.udp_endpoints;
  listener = h.listener;
  connections = h.connections;
  udp_sent = h.udp_sent;
  log = h.log;
}
post_effect-Ticks s Effect.network_started t h = h
post_effect-Ticks s Effect.network_stopped t h = h
post_effect-Ticks s Effect.scheduler_started t h = h
post_effect-Ticks s Effect.scheduler_stopped t h = h

pub tick-Ticks : (s : System) → Ticks s (tick s)
unfolding tick
tick-Ticks s =
    each_keep (Ticks s) (on_tick s.server).1 post_effect _
      (record {
        server = refl;
        sessions = refl;
        udp_endpoints = refl;
        listener = refl;
        connections = refl;
        udp_sent = refl;
        log = refl;
      })
      (post_effect-Ticks s)

-- Only the sessions and what has been sent change.
pub record Works (s t : System) : Type 0 where
  pub server : t.server ≡ s.server
  pub udp_endpoints : t.manager.udp_endpoints ≡ s.manager.udp_endpoints
  pub listener : t.listener ≡ s.listener
  pub connections : t.connections ≡ s.connections
  pub log : t.log ≡ s.log

pub endpoints-mark_session :
    (b : Bool) (id : ℕ) (n : NetworkManager) → (mark_session b id n).udp_endpoints ≡ n.udp_endpoints
unfolding mark_session
endpoints-mark_session b id n = elim (Option-cases (find id n.sessions)) [
  | inl free ↦ rw (free, mark_session)
  | inr (session, here) ↦ rw (here, mark_session)
]

endpoints-send_infos :
    (full delta : List ℕ) (infos : List SessionInfo) (n : NetworkManager)
    → (send_infos full delta infos n).1.udp_endpoints ≡ n.udp_endpoints
unfolding send_infos
endpoints-send_infos full delta [] n = refl
endpoints-send_infos full delta (info ∷ infos) n =
    endpoints-send_infos full delta infos _ ∙ once info.needs_full
  where
    once :
        (b : Bool) → (if b then mark_session false info.id n else n).udp_endpoints ≡ n.udp_endpoints
    once true = endpoints-mark_session false info.id n
    once false = refl

do_work-Works : (w : Work) (s : System) → Works s (do_work w s)
unfolding do_work
do_work-Works (udp_broadcast payload seq) s = record {
  server = refl;
  udp_endpoints =
      endpoints-send_infos (get_full_snapshot_for_seq s.server seq) payload
        (session_infos s.manager.sessions s.manager.udp_endpoints) s.manager;
  listener = refl;
  connections = refl;
  log = refl;
}
do_work-Works (stats_broadcast payload) s = record {
  server = refl;
  udp_endpoints = refl;
  listener = refl;
  connections = refl;
  log = refl;
}

work_begun-Works :
    (b : Bool) (w : Work) (posted : List Work) (s : System)
    → Works s (if b then do_work w (record s { posted = posted }) else s)
work_begun-Works true w posted s =
    let h = do_work-Works w (record s { posted = posted }) in
    record {
      server = h.server;
      udp_endpoints = h.udp_endpoints;
      listener = h.listener;
      connections = h.connections;
      log = h.log;
    }
work_begun-Works false w posted s = record {
  server = refl;
  udp_endpoints = refl;
  listener = refl;
  connections = refl;
  log = refl;
}

pub work_done-Works : (posted : List Work) (s : System) → Works s (work_done posted s)
unfolding work_done
work_done-Works [] s = record {
  server = refl;
  udp_endpoints = refl;
  listener = refl;
  connections = refl;
  log = refl;
}
work_done-Works (w ∷ posted) s = work_begun-Works s.listener.io_thread w posted s
