-- ===== src/Examples/Start.antt =====
-- A server that has just started and has one command.
use multilife.Prelude.{[]}
use multilife.Types.{chunk_coord_eq}
use multilife.GameServer.{GameServer}
use multilife.Examples.{game}

abbrev pub new_game : GameServer
new_game = record game { world = [] }
