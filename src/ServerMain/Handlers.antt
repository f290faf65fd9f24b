-- ===== src/ServerMain/Handlers.antt =====
-- server/src/BoostNetworkManager.cpp, `Session`: what the handlers of the reads do to the players.
use multilife.Prelude.{
  ℕ, ◌≡◌, true, ◌==◌, inl, inr, Bool-cases, List, [], ◌∷◌, take, All, All-append, some,
  Option-cases, nat_eq, each,
}
use multilife.Prelude.Map.{Everywhere}
use multilife.Types.{PlayerCommand}
use multilife.Wire.{read_le, msg_resync_req, handshake_size}
use multilife.Resources.{ResourceManager, add_player}
use multilife.Resources.Balances.{IsKnown}
use multilife.Resources.Known.{add_player-IsKnown, joined-IsKnown}
use multilife.GameServer.{on_commands_from_network}
use multilife.Sessions.{on_handshake, read_command, is_command, body_size}
use multilife.ServerMain.{
  System, Connection, Reading, handshake, ended, message, body, Handled, hand_on, handle_handshake,
  handle_type, handle_body,
}
use multilife.ServerMain.Registry.{SessionsFit, SessionsFit-mark_session, SessionsFit-on_handshake}
use multilife.ServerMain.Completes.{Completes, by_handshake, by_type, by_body}

abbrev pub Grows : ResourceManager → ResourceManager → Type 0
Grows r r' = (p : ℕ) → IsKnown p r → IsKnown p r'

-- A connection that reads messages is of a player who has a balance.
unfoldable pub ReaderFits : Reading → ResourceManager → Type 0
ReaderFits handshake r = Unit
ReaderFits ended r = Unit
ReaderFits (message player_id) r = IsKnown player_id r
ReaderFits (body player_id msg_type) r = IsKnown player_id r

ReaderFits-grow :
    (reading : Reading) (r r' : ResourceManager)
    → Grows r r'
    → ReaderFits reading r
    → ReaderFits reading r'
unfolding ReaderFits
ReaderFits-grow handshake r r' more h = tt
ReaderFits-grow ended r r' more h = tt
ReaderFits-grow (message id) r r' more h = more id h
ReaderFits-grow (body id type) r r' more h = more id h

abbrev pub IsReaderOf : ResourceManager → Connection → Type 0
IsReaderOf r c = ReaderFits c.reading r

abbrev pub ReadersFit : List (ℕ × Connection) → ResourceManager → Type 0
ReadersFit connections r = Everywhere (IsReaderOf r) connections

pub ReadersFit-grow :
    (connections : List (ℕ × Connection)) (r r' : ResourceManager)
    → Grows r r'
    → ReadersFit connections r
    → ReadersFit connections r'
ReadersFit-grow connections r r' more h i c e = ReaderFits-grow c.reading r r' more (h i c e)

abbrev pub LogFits : List PlayerCommand → ResourceManager → Type 0
LogFits log r = All (λ (cmd : PlayerCommand). IsKnown cmd.player_id r) log

pub LogFits-grow :
    (log : List PlayerCommand) (r r' : ResourceManager)
    → Grows r r'
    → LogFits log r
    → LogFits log r'
LogFits-grow [] r r' more h = tt
LogFits-grow (cmd ∷ log) r r' more h = (more cmd.player_id h.0, LogFits-grow log r r' more h.1)

-- The sessions, endpoints and balances belong together, connections that read messages are of players who
-- have a balance, and so are all commands that were handed on.
pub record IsRegistered (s : System) : Type 0 where
  pub sessions : SessionsFit s.server.resources s.manager
  pub readers : ReadersFit s.connections s.server.resources
  pub log : LogFits s.log s.server.resources

pub record HandledFits (s : System) (out : Handled) : Type 0 where
  pub sessions : SessionsFit out.0.server.resources out.0.manager
  pub grows : Grows s.server.resources out.0.server.resources
  pub reader : ReaderFits out.1.0 out.0.server.resources
  pub log : LogFits out.0.log out.0.server.resources

unhandled :
    (s : System) (next : Reading)
    → ReaderFits next s.server.resources
    → IsRegistered s
    → HandledFits s (s, (next, []))
unhandled s next reader h = record {
  sessions = h.sessions;
  grows = λ p k. k;
  reader = reader;
  log = h.log;
}

handle_handshake-HandledFits :
    (peer : ℕ) (bytes : List ℕ) (s : System)
    → IsRegistered s
    → HandledFits s (handle_handshake peer bytes s)
unfolding handle_handshake ReaderFits
handle_handshake-HandledFits peer bytes s h =
    elim (Option-cases (on_handshake bytes peer s.manager)) [
      | inl bad ↦ rw (bad, handle_handshake) (unhandled s ended tt h)
      | inr ((id, n), good) ↦
          let more : Grows s.server.resources (add_player s.server.resources id).0 =
            λ p. add_player-IsKnown p s.server.resources id in
          rw (good, handle_handshake)
            (record {
              sessions =
                  SessionsFit-on_handshake s.server.resources s.manager n bytes peer id good
                    h.sessions;
              grows = more;
              reader = joined-IsKnown s.server.resources id;
              log = LogFits-grow s.log _ _ more h.log;
            })
    ]

handle_type-HandledFits :
    (id msg_type : ℕ) (s : System)
    → IsKnown id s.server.resources
    → IsRegistered s
    → HandledFits s (handle_type id msg_type s)
unfolding handle_type ReaderFits
handle_type-HandledFits id msg_type s known h = elim (Bool-cases (msg_type == msg_resync_req)) [
  | inl resync ↦ rw resync (record {
    sessions = SessionsFit-mark_session s.server.resources s.manager true id h.sessions;
    grows = λ p k. k;
    reader = known;
    log = h.log;
  })
  | inr other ↦ elim (Bool-cases (is_command msg_type)) [
    | inl command ↦ rw (other, command) (unhandled s (body id msg_type) known h)
    | inr unknown ↦ rw (other, unknown) (unhandled s (message id) known h)
  ]
]

own_name :
    (id msg_type : ℕ) (bytes : List ℕ) (cmd : PlayerCommand)
    → read_command id msg_type bytes ≡ some cmd
    → cmd.player_id ≡ id
unfolding read_command
own_name id msg_type bytes cmd e = elim (Bool-cases (read_le 8 bytes == id)) [
  | inl own ↦ let e' = rw own at e in cc (e')
  | inr spoofed ↦ cc (rw spoofed at e)
]

hand_on-HandledFits :
    (id : ℕ) (cmd : PlayerCommand) (s : System)
    → cmd.player_id ≡ id
    → IsKnown id s.server.resources
    → IsRegistered s
    → HandledFits s (hand_on cmd s, (message id, cmd ∷ []))
unfolding hand_on on_commands_from_network each ReaderFits
hand_on-HandledFits id cmd s own known h = record {
  sessions = h.sessions;
  grows = λ p k. k;
  reader = known;
  log =
      All-append (λ (d : PlayerCommand). IsKnown d.player_id s.server.resources) s.log (cmd ∷ [])
        h.log (rw own known, tt);
}

handle_body-HandledFits :
    (id msg_type : ℕ) (bytes : List ℕ) (s : System)
    → IsKnown id s.server.resources
    → IsRegistered s
    → HandledFits s (handle_body id msg_type bytes s)
unfolding handle_body ReaderFits
handle_body-HandledFits id msg_type bytes s known h =
    elim (Option-cases (read_command id msg_type bytes)) [
      | inl spoofed ↦ rw (spoofed, handle_body) (unhandled s (message id) known h)
      | inr (cmd, own) ↦
          rw (own, handle_body)
            (hand_on-HandledFits id cmd s (own_name id msg_type bytes cmd own) known h)
    ]

pub Completes-HandledFits :
    (reading : Reading) (peer : ℕ) (wire : List ℕ) (s : System) (size : ℕ) (next : Handled)
    → Completes peer wire s size next reading
    → ReaderFits reading s.server.resources
    → IsRegistered s
    → HandledFits s next
unfolding ReaderFits
Completes-HandledFits _ peer wire s size next (by_handshake long e q) known h =
    rw q (handle_handshake-HandledFits peer (take handshake_size wire) s h)
Completes-HandledFits _ peer wire s size next (by_type player_id b rest front e q) known h =
    rw q (handle_type-HandledFits player_id b s known h)
Completes-HandledFits _ peer wire s size next (by_body player_id msg_type long e q) known h =
    rw q (handle_body-HandledFits player_id msg_type (take body_size wire) s known h)
