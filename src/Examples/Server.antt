-- ===== src/Examples/Server.antt =====
-- The theorems on the running server: one player, who joins, places a cell and gets a snapshot.
use multilife.Prelude.{
  ℕ, ◌≡◌, ◌≢◌, refl, ◌∙◌, true, false, List, [], ◌∷◌, ◌++◌, length, All, some, nat_eq, arith, each,
}
use multilife.Prelude.Map.{find, insert}
use multilife.Wire.{write_le, read_le}
use multilife.Client.Network.{handshake_bytes, command_bytes}
use multilife.GameServer.Invariant.{Proper}
use multilife.GameServer.{on_commands_from_network, refresh_full_snapshot_cache}
use multilife.GameServer
use multilife.Mirror.Tick.{Sound}
use multilife.Sessions.{on_handshake, read_command, command_type}
use multilife.Sessions.Listener.{Answers, fails, start, on_accept}
use multilife.Sessions.Stream.{
  Message, command, MessageFits, message_bytes, stream_bytes, delivered,
}
use multilife.ServerMain.{
  Connection, handshake, ended, start_main, carry_out, accept_done, read_done, complete,
  handle_handshake, handle_type, handle_body, hand_on,
}
use multilife.ServerMain.Run.{
  Event, accepted, written, read, failed, worked, ticked, serve, step, at_connection, write_bytes,
  main_round,
}
use multilife.ServerMain.Posted.{tick-Ticks}
use multilife.ServerMain.Sending.{SendsWell, serve-SendsWell}
use multilife.ServerMain.Soundness.{serve-Sound}
use multilife.ServerMain.Players.{serve-IsRegistered}
use multilife.ServerMain.Handlers.{IsRegistered}
use multilife.ServerMain.Streams.{AllFaithful, serve-AllFaithful}
use multilife.ServerMain.Reads.{reads, HasRead, serve-delivered}
use multilife.ServerMain.Loop.{serve-running}
use multilife.ServerMain.Introductions.{IsGreeted, serve-IsGreeted}
use multilife.Examples.{place_far}

abbrev all_well : Answers
all_well = record {
  tcp_open = false;
  set_option = false;
  tcp_bind = false;
  listen = false;
  udp_open = false;
  udp_bind = false;
}

abbrev one_message : List Message
one_message = command place_far ∷ []

abbrev written_bytes : List ℕ
written_bytes = handshake_bytes 7 ++ stream_bytes one_message

abbrev joining : List Event
joining = accepted 1 5000 ∷ written 1 written_bytes ∷ []

abbrev playing : List Event
playing = joining ++ (read 1 ∷ read 1 ∷ read 1 ∷ ticked ∷ worked ∷ failed 1 ∷ ticked ∷ [])

serve-SendsWell_example : SendsWell (serve playing (start_main all_well))
serve-SendsWell_example = serve-SendsWell all_well playing

serve-IsRegistered_example : IsRegistered (serve playing (start_main all_well))
serve-IsRegistered_example = serve-IsRegistered all_well playing

serve-AllFaithful_example : AllFaithful (serve playing (start_main all_well))
serve-AllFaithful_example = serve-AllFaithful all_well playing

abbrev waiting : Connection
waiting = record { peer = 5000; reading = handshake; wire = written_bytes; taken = []; handed = [] }

joined : find 1 (serve joining (start_main all_well)).connections ≡ some waiting
unfolding serve step accept_done at_connection write_bytes start_main carry_out each
    GameServer.start start on_accept find insert
joined = refl

place_far-fits : All MessageFits one_message
unfolding MessageFits
place_far-fits = ((omega arith, ground arith, ground arith), tt)

still_reading : handshake ≢ ended
still_reading e = cc (e)

serve-delivered_example :
    HasRead 1
      (delivered 7 one_message)
      (serve (joining ++ reads 1 (length written_bytes)) (start_main all_well))
serve-delivered_example =
    serve-delivered all_well joining 1 waiting joined still_reading 7 one_message (omega arith)
      place_far-fits refl

serve-running_example :
    ((serve playing (start_main all_well)).server.running ≡ true)
    × (main_round all_well (serve playing (start_main all_well))
        ≡ serve playing (start_main all_well))
    × (fails all_well ≡ true → (serve playing (start_main all_well)).connections ≡ [])
serve-running_example = serve-running all_well playing

abbrev placing : List Event
placing = joining ++ (read 1 ∷ read 1 ∷ read 1 ∷ [])

placed : (serve placing (start_main all_well)).log ≡ place_far ∷ []
unfolding serve step accept_done at_connection write_bytes start_main carry_out each
    GameServer.start start on_accept find insert read_done complete handle_handshake handle_type
    handle_body hand_on on_handshake read_command command_type read_le write_le handshake_bytes
    stream_bytes message_bytes command_bytes
placed = refl

abbrev with_tick : List Event
with_tick = placing ++ (ticked ∷ [])

with_tick-log : (serve with_tick (start_main all_well)).log ≡ place_far ∷ []
unfolding serve step
with_tick-log = (tick-Ticks (serve placing (start_main all_well))).log ∙ placed

with_tick-Proper : All Proper (serve with_tick (start_main all_well)).log
with_tick-Proper = rw with_tick-log (((ground arith, ground arith), ground arith), tt)

serve-Sound_example : Sound (serve with_tick (start_main all_well)).server.world
serve-Sound_example = serve-Sound all_well with_tick with_tick-Proper

-- A player has joined, and the first tick has posted its delta.
abbrev greeting : List Event
greeting = placing ++ (ticked ∷ [])

serve-IsGreeted_example :
    IsGreeted
      (serve greeting (start_main all_well))
      (step worked (serve greeting (start_main all_well)))
serve-IsGreeted_example = serve-IsGreeted all_well greeting worked
