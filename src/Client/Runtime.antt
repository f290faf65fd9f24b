-- ===== src/Client/Runtime.antt =====
-- client/include/ClientRuntime.h and client/src/ClientRuntime.cpp: the network client on a thread of its
-- own. A call from the window's thread and a signal from the network's are queued, and each queue is
-- served from its front.
pub mod Order
pub mod Delivery
use multilife.Prelude.{ℕ, Bool, true, false, ◌≡◌, List, [], ◌∷◌, ◌++◌, Option, none, some}
use multilife.Prelude.Int.{ℤ}
use multilife.Client.Network
use multilife.Client.Network.{NetworkClient, SocketState, Effect}

-- The queued calls of slots.
pub data Call : Type 0 where
  connect : ℕ → ℕ → ℕ → ℕ → Call
  disconnect : Call
  place : ℤ → ℤ → Call
  remove : ℤ → ℤ → Call
  toggle : ℤ → ℤ → Call
  resync : Call

pub record Runtime : Type 0 where
  pub client : NetworkClient
  pub calls : List Call
  pub signals : List Effect
  pub running : Bool

-- `QMetaObject::invokeMethod` with a queued connection.
abbrev pub post : Call → Runtime → Runtime
post call r = record r { calls = r.calls ++ (call ∷ []) }

unfoldable pub connect_to_server : ℕ → ℕ → ℕ → ℕ → Runtime → Runtime
connect_to_server host tcp_port udp_port player_id =
    post (Call.connect host tcp_port udp_port player_id)

unfoldable pub disconnect_from_server : Runtime → Runtime
disconnect_from_server = post Call.disconnect

unfoldable pub send_place_cell : ℤ → ℤ → Runtime → Runtime
send_place_cell x y = post (Call.place x y)

unfoldable pub send_remove_cell : ℤ → ℤ → Runtime → Runtime
send_remove_cell x y = post (Call.remove x y)

unfoldable pub send_toggle_cell : ℤ → ℤ → Runtime → Runtime
send_toggle_cell x y = post (Call.toggle x y)

unfoldable pub send_resync : Runtime → Runtime
send_resync = post Call.resync

-- The slot that a call names, with the states of the two sockets.
unfoldable pub perform :
    SocketState → SocketState → Call → NetworkClient → NetworkClient × List Effect
unfolding Network.connect_to_server Network.disconnect_from_server Network.send_place_cell
    Network.send_remove_cell Network.send_toggle_cell Network.send_resync
perform udp tcp (Call.connect host tcp_port udp_port player_id) c =
    Network.connect_to_server udp tcp host tcp_port udp_port player_id c
perform udp tcp Call.disconnect c = Network.disconnect_from_server tcp c
perform udp tcp (Call.place x y) c = (c, Network.send_place_cell tcp c x y)
perform udp tcp (Call.remove x y) c = (c, Network.send_remove_cell tcp c x y)
perform udp tcp (Call.toggle x y) c = (c, Network.send_toggle_cell tcp c x y)
perform udp tcp Call.resync c = (c, Network.send_resync tcp)

-- The effects that are signals of the network client, which the constructor connects.
unfoldable pub signals_of : List Effect → List Effect
signals_of [] = []
signals_of (Effect.state_changed b ∷ es) = Effect.state_changed b ∷ signals_of es
signals_of (Effect.stats_updated g ps ∷ es) = Effect.stats_updated g ps ∷ signals_of es
signals_of (Effect.world_update n f x y cs ∷ es) = Effect.world_update n f x y cs ∷ signals_of es
signals_of (Effect.udp_close ∷ es) = signals_of es
signals_of (Effect.tcp_abort ∷ es) = signals_of es
signals_of (Effect.tcp_disconnect ∷ es) = signals_of es
signals_of (Effect.tcp_connect h p ∷ es) = signals_of es
signals_of (Effect.tcp_write bs ∷ es) = signals_of es

abbrev pub after : NetworkClient × List Effect → Runtime → Runtime
after (c, es) r = record r { client = c; signals = r.signals ++ signals_of es }

-- What the two threads do: the window posts a call or takes a signal, the network's thread performs the
-- call at the front, or serves an event of a socket or of the timer, whatever that comes to. The lists
-- are the calls that are posted and performed, and the signals that are emitted and delivered.
pub data Step (r : Runtime)
    : List Call → List Call → List Effect → List Effect → Runtime → Type 0 where
  posted : (call : Call) → Step r (call ∷ []) [] [] [] (post call r)
  performed :
      (udp tcp : SocketState) (call : Call) (rest : List Call)
      → r.running ≡ true
      → r.calls ≡ call ∷ rest
      → Step r []
          (call ∷ [])
          (signals_of (perform udp tcp call r.client).1)
          []
          (after (perform udp tcp call r.client) (record r { calls = rest }))
  served :
      (handler : NetworkClient → NetworkClient × List Effect)
      → r.running ≡ true
      → Step r [] [] (signals_of (handler r.client).1) [] (after (handler r.client) r)
  delivered :
      (signal : Effect) (rest : List Effect)
      → r.signals ≡ signal ∷ rest
      → Step r [] [] [] (signal ∷ []) (record r { signals = rest })
  quit : Step r [] [] [] [] (record r { running = false })

pub data Steps (r : Runtime)
    : List Call → List Call → List Effect → List Effect → Runtime → Type 0 where
  still : Steps r [] [] [] [] r
  next :
      {cs cs' ds ds' : List Call} {es es' fs fs' : List Effect} {s t : Runtime}
      → Steps r cs ds es fs s
      → Step s cs' ds' es' fs' t
      → Steps r (cs ++ cs') (ds ++ ds') (es ++ es') (fs ++ fs') t
