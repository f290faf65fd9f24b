-- ===== src/ServerMain/Sending.antt =====
-- server/src/main.cpp, with server/src/BoostNetworkManager.cpp, `sendPayloadTo`: what the server sends while it
-- runs.
use multilife.Prelude.{
  ℕ, ◌≡◌, refl, ◌∙◌, Bool, true, false, if◌then◌else◌, List, [], ◌∷◌, ◌++◌, map, each, All,
  All-append, some, inl, inr, Bool-cases,
}
use multilife.World.{ChunkMap}
use multilife.Serializer.{serialize_full, serialize_delta}
use multilife.Serializer.Payload.{Packet, encode, delta_packets, full_packets}
use multilife.Sender.{send_payload_to}
use multilife.Sender.Walk.{PacketFits}
use multilife.Sender.Delivery.{
  full_packets-PacketFits, send_payload_to-serialize_delta,
  rewrite_snapshot_seq_nums-serialize_full,
}
use multilife.Sessions.{NetworkManager, SessionInfo, send_infos}
use multilife.Sessions.Listener.{Answers}
use multilife.GameServer.{
  GameServer, Effect, on_tick, broadcast, world_updates, stats_updates, get_full_snapshot_for_seq,
  refresh_full_snapshot_cache, total_counts,
}
use multilife.GameServer
use multilife.GameServer.Tick.{on_tick_lem, on_tick-cached, edited_world, settled}
use multilife.ServerMain.{System, Work, udp_broadcast, stats_broadcast, start_main, carry_out}
use multilife.ServerMain.Run.{
  post_effect, tick, do_work, work_done, Event, accepted, written, read, failed, worked, ticked,
  step, serve,
}
use multilife.ServerMain.Frame.{Frame, IsSocketEvent, step-Frame, serve_keep}
use multilife.ServerMain.Posted.{tick-Ticks}

-- `sendPayloadTo` gets through the payload, and what it sends are packets of 125 cells at most.
pub record Deliverable (payload : List ℕ) : Type 0 where
  pub packets : List Packet
  pub walk : send_payload_to payload ≡ some (map encode packets)
  pub short : All PacketFits packets

serialize_delta-Deliverable :
    (seq_num : ℕ) (m : ChunkMap) → Deliverable (serialize_delta seq_num m).0
serialize_delta-Deliverable seq_num m =
    let (walk, short) = send_payload_to-serialize_delta seq_num m in
    record { packets = delta_packets seq_num m; walk = walk; short = short }

serialize_full-Deliverable : (seq_num : ℕ) (m : ChunkMap) → Deliverable (serialize_full seq_num m)
serialize_full-Deliverable seq_num m = record {
  packets = full_packets seq_num m;
  walk = (rewrite_snapshot_seq_nums-serialize_full seq_num 0 m).1;
  short = full_packets-PacketFits seq_num m;
}

unfoldable pub WorkFits : Work → Type 0
WorkFits (udp_broadcast payload seq) = Deliverable payload
WorkFits (stats_broadcast payload) = Unit

unfoldable EffectFits : Effect → Type 0
EffectFits (Effect.world_update seq_num payload) = Deliverable payload
EffectFits (Effect.server_stats payload) = Unit
EffectFits Effect.network_started = Unit
EffectFits Effect.network_stopped = Unit
EffectFits Effect.scheduler_started = Unit
EffectFits Effect.scheduler_stopped = Unit

-- The cached snapshot is the one of the world, and what was sent or waits to be sent can be sent.
pub record SendsWell (s : System) : Type 0 where
  pub cached : s.server.cached_full_snapshot ≡ serialize_full 0 s.server.world
  pub posted : All WorkFits s.posted
  pub sent : All (λ (d : ℕ × List ℕ). Deliverable d.1) s.udp_sent

stats_updates-EffectFits : (bytes : List ℕ) → All EffectFits (stats_updates bytes)
unfolding EffectFits
stats_updates-EffectFits [] = tt
stats_updates-EffectFits (b ∷ bytes) = (tt, tt)

updates-EffectFits :
    (seq_num : ℕ) (payload stats : List ℕ)
    → Deliverable payload
    → All EffectFits (world_updates seq_num payload ++ stats_updates stats)
unfolding EffectFits
updates-EffectFits seq_num [] stats h = stats_updates-EffectFits stats
updates-EffectFits seq_num (b ∷ payload) stats h = (h, stats_updates-EffectFits stats)

broadcast-EffectFits :
    (counts : List (ℕ × ℕ)) (g : GameServer) → All EffectFits (broadcast counts g).1
unfolding broadcast
broadcast-EffectFits counts g = elim (Bool-cases g.has_network) [
  | inl on ↦ rw on (
      updates-EffectFits g.broadcast_seq (serialize_delta g.broadcast_seq g.world).0 _
        (serialize_delta-Deliverable g.broadcast_seq g.world))
  | inr off ↦ rw off tt
]

on_tick-EffectFits : (g : GameServer) → All EffectFits (on_tick g).1
on_tick-EffectFits g =
    rw (on_tick_lem g) (broadcast-EffectFits (total_counts (edited_world g).0) (settled g))

post_effects-WorkFits :
    (es : List Effect) (s : System)
    → All EffectFits es
    → All WorkFits s.posted
    → All WorkFits (each es post_effect s).posted
unfolding each EffectFits post_effect WorkFits
post_effects-WorkFits [] s fits h = h
post_effects-WorkFits (Effect.world_update seq_num [] ∷ es) s fits h =
    post_effects-WorkFits es s fits.1 h
post_effects-WorkFits (Effect.world_update seq_num (b ∷ bytes) ∷ es) s fits h =
    post_effects-WorkFits es _ fits.1 (All-append WorkFits s.posted _ h (fits.0, tt))
post_effects-WorkFits (Effect.server_stats [] ∷ es) s fits h = post_effects-WorkFits es s fits.1 h
post_effects-WorkFits (Effect.server_stats (b ∷ bytes) ∷ es) s fits h =
    post_effects-WorkFits es _ fits.1 (All-append WorkFits s.posted _ h (tt, tt))
post_effects-WorkFits (Effect.network_started ∷ es) s fits h = post_effects-WorkFits es s fits.1 h
post_effects-WorkFits (Effect.network_stopped ∷ es) s fits h = post_effects-WorkFits es s fits.1 h
post_effects-WorkFits (Effect.scheduler_started ∷ es) s fits h = post_effects-WorkFits es s fits.1 h
post_effects-WorkFits (Effect.scheduler_stopped ∷ es) s fits h = post_effects-WorkFits es s fits.1 h

tick-SendsWell : (s : System) → SendsWell s → SendsWell (tick s)
tick-SendsWell s h =
    let t = tick-Ticks s in
    record {
      cached = rw t.server (on_tick-cached s.server);
      posted =
          unfold tick in
          post_effects-WorkFits (on_tick s.server).1 _ (on_tick-EffectFits s.server) h.posted;
      sent = rw t.udp_sent h.sent;
    }

send_infos-Deliverable :
    (full delta : List ℕ) (infos : List SessionInfo) (n : NetworkManager)
    → Deliverable full
    → Deliverable delta
    → All (λ (d : ℕ × List ℕ). Deliverable d.1) (send_infos full delta infos n).0
unfolding send_infos
send_infos-Deliverable full delta [] n f d = tt
send_infos-Deliverable full delta (info ∷ infos) n f d =
    (either info.needs_full, send_infos-Deliverable full delta infos _ f d)
  where
    either : (b : Bool) → Deliverable (if b then full else delta)
    either true = f
    either false = d

do_work-SendsWell : (w : Work) (s : System) → WorkFits w → SendsWell s → SendsWell (do_work w s)
unfolding do_work WorkFits get_full_snapshot_for_seq
do_work-SendsWell (udp_broadcast payload seq) s d h = record {
  cached = h.cached;
  posted = h.posted;
  sent =
      All-append (λ (d : ℕ × List ℕ). Deliverable d.1) s.udp_sent _ h.sent
        (send_infos-Deliverable (get_full_snapshot_for_seq s.server seq) payload _ s.manager
          (rw (h.cached, (rewrite_snapshot_seq_nums-serialize_full seq 0 s.server.world).0)
            (serialize_full-Deliverable seq s.server.world))
          d);
}
do_work-SendsWell (stats_broadcast payload) s d h = record {
  cached = h.cached;
  posted = h.posted;
  sent = h.sent;
}

work_begun-SendsWell :
    (b : Bool) (w : Work) (posted : List Work) (s : System)
    → WorkFits w
    → All WorkFits posted
    → SendsWell s
    → SendsWell (if b then do_work w (record s { posted = posted }) else s)
work_begun-SendsWell true w posted s fits rest h =
    do_work-SendsWell w (record s { posted = posted }) fits
      (record { cached = h.cached; posted = rest; sent = h.sent })
work_begun-SendsWell false w posted s fits rest h = h

work_done-SendsWell :
    (posted : List Work) (s : System)
    → All WorkFits posted
    → SendsWell s
    → SendsWell (work_done posted s)
unfolding work_done
work_done-SendsWell [] s fits h = h
work_done-SendsWell (w ∷ posted) s fits h =
    work_begun-SendsWell s.listener.io_thread w posted s fits.0 fits.1 h

Frame-SendsWell : (s t : System) → Frame s t → SendsWell s → SendsWell t
Frame-SendsWell s t f h = record {
  cached = f.cached ∙ h.cached ∙ rw f.world;
  posted = rw f.posted h.posted;
  sent = rw f.udp_sent h.sent;
}

pub step-SendsWell : (e : Event) (s : System) → SendsWell s → SendsWell (step e s)
unfolding IsSocketEvent
step-SendsWell (accepted i peer) s h = Frame-SendsWell s _ (step-Frame (accepted i peer) s tt) h
step-SendsWell (written i bytes) s h = Frame-SendsWell s _ (step-Frame (written i bytes) s tt) h
step-SendsWell (read i) s h = Frame-SendsWell s _ (step-Frame (read i) s tt) h
step-SendsWell (failed i) s h = Frame-SendsWell s _ (step-Frame (failed i) s tt) h
step-SendsWell worked s h = unfold step in work_done-SendsWell s.posted s h.posted h
step-SendsWell ticked s h = unfold step in tick-SendsWell s h

pub start_main-SendsWell : (answers : Answers) → SendsWell (start_main answers)
unfolding start_main carry_out each GameServer.start refresh_full_snapshot_cache
start_main-SendsWell answers = record { cached = refl; posted = tt; sent = tt }

-- Whatever happens while the server runs: the cached snapshot is the one of the world as it is, and every
-- payload that was sent to an endpoint, or waits to be sent, is one through which `sendPayloadTo` walks
-- packet by packet without leaving it, with 125 cells at most in each datagram.
pub serve-SendsWell :
    (answers : Answers) (events : List Event) → SendsWell (serve events (start_main answers))
serve-SendsWell answers events =
    serve_keep SendsWell step-SendsWell events (start_main answers) (start_main-SendsWell answers)
