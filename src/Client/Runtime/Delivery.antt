-- ===== src/Client/Runtime/Delivery.antt =====
-- client/src/ClientRuntime.cpp, client/src/GameNetworkClient.cpp and the session of
-- server/src/BoostNetworkManager.cpp: from the calls of the window to the commands of the server.
use multilife.Prelude.{
  ℕ, ◌^◌, ◌<◌, ◌≡◌, refl, sym, ◌∙◌, ap, ==_refl, List, [], ◌∷◌, ◌++◌, All, append_assoc, append-nil,
}
use multilife.Prelude.Int.{IsInt64}
use multilife.Types.{PlayerCommand, place_cell, remove_cell, toggle_cell}
use multilife.Sessions.{NetworkManager, run_session}
use multilife.Sessions.Stream.{
  Message, command, resync, MessageFits, message_bytes, stream_bytes, delivered,
  run_session-stream_bytes,
}
use multilife.Client.Network.{
  NetworkClient, SocketState, connected, Effect, handshake_bytes, send_place_cell, send_remove_cell,
  send_toggle_cell, send_resync, send_command,
}
use multilife.Client.Runtime.{Call, perform}

-- What the effects write to the server, in order.
unfoldable pub written : List Effect → List ℕ
written [] = []
written (Effect.tcp_write bytes ∷ es) = bytes ++ written es
written (Effect.udp_close ∷ es) = written es
written (Effect.tcp_abort ∷ es) = written es
written (Effect.tcp_disconnect ∷ es) = written es
written (Effect.tcp_connect h p ∷ es) = written es
written (Effect.state_changed b ∷ es) = written es
written (Effect.stats_updated g ps ∷ es) = written es
written (Effect.world_update n f x y cs ∷ es) = written es

-- The calls performed one after the other, while the sockets stay as they are.
unfoldable pub perform_all :
    SocketState → SocketState → List Call → NetworkClient → NetworkClient × List Effect
perform_all udp tcp [] c = (c, [])
perform_all udp tcp (call ∷ calls) c =
    let first = perform udp tcp call c in
    let rest = perform_all udp tcp calls first.0 in (rest.0, first.1 ++ rest.1)

-- An edit within 64-bit coordinates, or a request for a snapshot.
unfoldable pub IsEdit : Call → Type 0
IsEdit (Call.connect h t u p) = ⊥
IsEdit Call.disconnect = ⊥
IsEdit (Call.place x y) = IsInt64 x × IsInt64 y
IsEdit (Call.remove x y) = IsInt64 x × IsInt64 y
IsEdit (Call.toggle x y) = IsInt64 x × IsInt64 y
IsEdit Call.resync = Unit

-- The commands that the server should carry out.
unfoldable pub commands_of : ℕ → List Call → List PlayerCommand
commands_of id [] = []
commands_of id (Call.place x y ∷ calls) =
    record { player_id = id; type = place_cell; x = x; y = y } ∷ commands_of id calls
commands_of id (Call.remove x y ∷ calls) =
    record { player_id = id; type = remove_cell; x = x; y = y } ∷ commands_of id calls
commands_of id (Call.toggle x y ∷ calls) =
    record { player_id = id; type = toggle_cell; x = x; y = y } ∷ commands_of id calls
commands_of id (Call.resync ∷ calls) = commands_of id calls
commands_of id (Call.connect h t u p ∷ calls) = commands_of id calls
commands_of id (Call.disconnect ∷ calls) = commands_of id calls

abbrev message_of : ℕ → Call → Message
message_of id (Call.place x y) =
    command (record { player_id = id; type = place_cell; x = x; y = y })
message_of id (Call.remove x y) =
    command (record { player_id = id; type = remove_cell; x = x; y = y })
message_of id (Call.toggle x y) =
    command (record { player_id = id; type = toggle_cell; x = x; y = y })
message_of id Call.resync = resync
message_of id (Call.connect h t u p) = resync
message_of id Call.disconnect = resync

abbrev messages_of : ℕ → List Call → List Message
messages_of id [] = []
messages_of id (call ∷ calls) = message_of id call ∷ messages_of id calls

-- One edit writes its message, and leaves the client as it is.
perform_edit :
    (udp : SocketState) (call : Call) (c : NetworkClient)
    → IsEdit call
    → (written (perform udp connected call c).1 ≡ message_bytes (message_of c.player_id call))
      × ((perform udp connected call c).0 ≡ c)
unfolding IsEdit perform written message_bytes send_place_cell send_remove_cell send_toggle_cell
    send_resync send_command
perform_edit udp (Call.connect h t u p) c e = absurd e
perform_edit udp Call.disconnect c e = absurd e
perform_edit udp (Call.place x y) c e = (append-nil _, refl)
perform_edit udp (Call.remove x y) c e = (append-nil _, refl)
perform_edit udp (Call.toggle x y) c e = (append-nil _, refl)
perform_edit udp Call.resync c e = (refl, refl)

written-append : (es fs : List Effect) → written (es ++ fs) ≡ written es ++ written fs
unfolding written
written-append [] fs = refl
written-append (Effect.tcp_write bytes ∷ es) fs =
    ap (λ (l : List ℕ). bytes ++ l) (written-append es fs)
    ∙ sym (append_assoc bytes (written es) (written fs))
written-append (Effect.udp_close ∷ es) fs = written-append es fs
written-append (Effect.tcp_abort ∷ es) fs = written-append es fs
written-append (Effect.tcp_disconnect ∷ es) fs = written-append es fs
written-append (Effect.tcp_connect h p ∷ es) fs = written-append es fs
written-append (Effect.state_changed b ∷ es) fs = written-append es fs
written-append (Effect.stats_updated g ps ∷ es) fs = written-append es fs
written-append (Effect.world_update n f x y cs ∷ es) fs = written-append es fs

written-perform_all :
    (udp : SocketState) (calls : List Call) (c : NetworkClient)
    → All IsEdit calls
    → written (perform_all udp connected calls c).1 ≡ stream_bytes (messages_of c.player_id calls)
unfolding perform_all stream_bytes
written-perform_all udp [] c h = unfold written in refl
written-perform_all udp (call ∷ calls) c h =
    let (w, same) = perform_edit udp call c h.0 in
    written-append (perform udp connected call c).1 _
    ∙ rw (w, same, written-perform_all udp calls c h.1)

messages_of-MessageFits :
    (id : ℕ) (calls : List Call)
    → id < 2 ^ 64
    → All IsEdit calls
    → All MessageFits (messages_of id calls)
unfolding IsEdit MessageFits
messages_of-MessageFits id [] h e = tt
messages_of-MessageFits id (Call.connect a b c d ∷ calls) h e = absurd e.0
messages_of-MessageFits id (Call.disconnect ∷ calls) h e = absurd e.0
messages_of-MessageFits id (Call.place x y ∷ calls) h e =
    ((h, e.0.0, e.0.1), messages_of-MessageFits id calls h e.1)
messages_of-MessageFits id (Call.remove x y ∷ calls) h e =
    ((h, e.0.0, e.0.1), messages_of-MessageFits id calls h e.1)
messages_of-MessageFits id (Call.toggle x y ∷ calls) h e =
    ((h, e.0.0, e.0.1), messages_of-MessageFits id calls h e.1)
messages_of-MessageFits id (Call.resync ∷ calls) h e = (tt, messages_of-MessageFits id calls h e.1)

delivered-messages_of :
    (id : ℕ) (calls : List Call)
    → All IsEdit calls
    → delivered id (messages_of id calls) ≡ commands_of id calls
unfolding IsEdit delivered commands_of
delivered-messages_of id [] e = refl
delivered-messages_of id (Call.connect a b c d ∷ calls) e = absurd e.0
delivered-messages_of id (Call.disconnect ∷ calls) e = absurd e.0
delivered-messages_of id (Call.place x y ∷ calls) e =
    rw (==_refl id, delivered-messages_of id calls e.1)
delivered-messages_of id (Call.remove x y ∷ calls) e =
    rw (==_refl id, delivered-messages_of id calls e.1)
delivered-messages_of id (Call.toggle x y ∷ calls) e =
    rw (==_refl id, delivered-messages_of id calls e.1)
delivered-messages_of id (Call.resync ∷ calls) e = delivered-messages_of id calls e.1

-- A client that is connected performs any edits and requests, with 64-bit ids and coordinates: the bytes
-- that it writes, behind its handshake, make the server's session carry out exactly these edits, in the
-- player's name and in order.
pub run_session-perform_all :
    (udp : SocketState) (calls : List Call) (c : NetworkClient) (peer : ℕ) (n : NetworkManager)
    → c.player_id < 2 ^ 64
    → All IsEdit calls
    → (run_session
        (handshake_bytes c.player_id ++ written (perform_all udp connected calls c).1)
        peer
        n).1.0
      ≡ commands_of c.player_id calls
run_session-perform_all udp calls c peer n h e = rw (written-perform_all udp calls c e) (
    (run_session-stream_bytes c.player_id peer (messages_of c.player_id calls) n h
      (messages_of-MessageFits c.player_id calls h e)).1
    ∙ delivered-messages_of c.player_id calls e)
