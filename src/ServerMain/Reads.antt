-- ===== src/ServerMain/Reads.antt =====
-- server/src/main.cpp, with server/src/BoostNetworkManager.cpp: the reads of a connection come to the end of what
-- its client has written.
use multilife.Prelude.{
  ℕ, zero, suc, ◌≡◌, ◌≢◌, ◌≤◌, ◌<◌, ◌^◌, refl, sym, ◌∙◌, ap, true, ltb, inl, inr, Bool-cases, List,
  [], ◌∷◌, ◌++◌, append_assoc, append-nil, length, length-drop, take, drop, take-append-drop, All,
  none, some, Option-cases, nat_eq, arith,
}
use multilife.Prelude.Map.{find, find-insert}
use multilife.Types.{PlayerCommand}
use multilife.Wire.{handshake_size}
use multilife.Sessions.{NetworkManager, body_size, read_messages, run_session}
use multilife.Sessions.Listener.{Answers}
use multilife.Sessions.Stream.{
  Message, stream_bytes, MessageFits, delivered, run_session-stream_bytes,
}
use multilife.Client.Network.{handshake_bytes}
use multilife.ServerMain.{
  System, Connection, Reading, handshake, ended, message, body, Handled, no_sessions, complete,
  store, after_read, read_done, start_main,
}
use multilife.ServerMain.Run.{Event, read, at_connection, step, serve}
use multilife.ServerMain.Completes.{Completes, complete-Completes}
use multilife.ServerMain.Commands.{commands_of}
use multilife.ServerMain.Streams.{IsExact, Completes-size, after_read-IsExact, serve-AllFaithful}

-- So many reads of the connection, with nothing between them.
unfoldable pub reads : ℕ → ℕ → List Event
reads i zero = []
reads i (suc n) = read i ∷ reads i n

short_run :
    (stream : List ℕ)
    → ltb (length stream) handshake_size ≡ true
    → run_session stream 0 no_sessions ≡ ([], ([], no_sessions))
unfolding run_session
short_run stream short = rw short

-- A read that waits for more bytes leaves no command behind.
waits_for_none :
    (reading : Reading) (peer : ℕ) (wire : List ℕ) (s : System)
    → complete reading peer wire s ≡ none
    → commands_of reading wire ≡ []
unfolding complete commands_of read_messages
waits_for_none handshake peer wire s e = elim (Bool-cases (ltb (length wire) handshake_size)) [
  | inl short ↦
      ap (λ (r : List ℕ × (List PlayerCommand × NetworkManager)). r.1.0) (short_run wire short)
  | inr long ↦ cc (rw long at e)
]
waits_for_none ended peer wire s e = refl
waits_for_none (message id) peer [] s e = refl
waits_for_none (message id) peer (b ∷ wire) s e = cc (e)
waits_for_none (body id msg_type) peer wire s e = elim (Bool-cases (ltb (length wire) body_size)) [
  | inl short ↦ rw short
  | inr long ↦ cc (rw long at e)
]

module _ (i : ℕ) where
  read_step :
      (c : Connection) (s : System)
      → find i s.connections ≡ some c
      → step (read i) s ≡ read_done i c s
  unfolding step at_connection
  read_step c s here = rw (here, step, at_connection)

  stays :
      (n : ℕ) (c : Connection) (s : System)
      → find i s.connections ≡ some c
      → complete c.reading c.peer c.wire s ≡ none
      → serve (reads i n) s ≡ s
  unfolding serve reads read_done
  stays zero c s here waits = refl
  stays (suc n) c s here waits =
      let same : step (read i) s ≡ s = read_step c s here ∙ rw (waits, read_done) in
      ap (serve (reads i n)) same ∙ stays n c s here waits

  read_done_lem :
      (c : Connection) (s : System) (size : ℕ) (next : Handled)
      → complete c.reading c.peer c.wire s ≡ some (size, next)
      → read_done i c s ≡ store i size c next
  unfolding read_done
  read_done_lem c s size next done = rw (done, read_done)

  one_read :
      (n : ℕ) (c : Connection) (s : System) (size : ℕ) (next : Handled)
      → find i s.connections ≡ some c
      → complete c.reading c.peer c.wire s ≡ some (size, next)
      → serve (reads i (suc n)) s ≡ serve (reads i n) (store i size c next)
  unfolding serve reads
  one_read n c s size next here done =
      ap (serve (reads i n)) (read_step c s here ∙ read_done_lem c s size next done)

  -- The connection after enough reads: all that came of its bytes was handed on.
  pub record HasRead (commands : List PlayerCommand) (s : System) : Type 0 where
    pub connection : Connection
    pub here : find i s.connections ≡ some connection
    pub handed : connection.handed ≡ commands

  find-store :
      (size : ℕ) (c : Connection) (s : System) (next : Handled)
      → Completes c.peer c.wire s size next c.reading
      → find i (store i size c next).connections ≡ some (after_read size c next.1)
  find-store size c s next d =
      find-insert i i (after_read size c next.1) next.0.connections ∙ ground arith

  waits-HasRead :
      (n : ℕ) (c : Connection) (s : System)
      → find i s.connections ≡ some c
      → complete c.reading c.peer c.wire s ≡ none
      → IsExact c
      → HasRead (commands_of handshake (c.taken ++ c.wire)) (serve (reads i n) s)
  waits-HasRead n c s here waits exact = rw (stays n c s here waits) (record {
    connection = c;
    here = here;
    handed =
        sym (
          exact c.wire ∙ rw (waits_for_none c.reading c.peer c.wire s waits) (append-nil c.handed));
  })

  all_bytes :
      (size : ℕ) (c : Connection)
      → (c.taken ++ take size c.wire) ++ drop size c.wire ≡ c.taken ++ c.wire
  all_bytes size c =
      append_assoc c.taken (take size c.wire) (drop size c.wire)
      ∙ ap (λ (bytes : List ℕ). c.taken ++ bytes) (take-append-drop size c.wire)

  serve-HasRead :
      (n : ℕ) (c : Connection) (s : System)
      → find i s.connections ≡ some c
      → length c.wire ≤ n
      → IsExact c
      → HasRead (commands_of handshake (c.taken ++ c.wire)) (serve (reads i n) s)
  serve-HasRead zero c s here short exact =
      elim (Option-cases (complete c.reading c.peer c.wire s)) [
        | inl waits ↦ waits-HasRead zero c s here waits exact
        | inr ((size, next), done) ↦
            let (some_bytes, there, live) =
              Completes-size c.reading c.peer c.wire s size next
                (complete-Completes c.reading c.peer c.wire s size next done) in
            absurd (omega (arith, some_bytes, there, short))
      ]
  serve-HasRead (suc n) c s here short exact =
      elim (Option-cases (complete c.reading c.peer c.wire s)) [
        | inl waits ↦ waits-HasRead (suc n) c s here waits exact
        | inr ((size, next), done) ↦
            let d = complete-Completes c.reading c.peer c.wire s size next done in
            let (some_bytes, there, live) = Completes-size c.reading c.peer c.wire s size next d in
            let after = after_read size c next.1 in
            rw (one_read n c s size next here done, sym (all_bytes size c))
              (serve-HasRead n after (store i size c next) (find-store size c s next d)
                (omega (arith, length-drop size c.wire, some_bytes, there, short))
                (after_read-IsExact c s size next d exact))
      ]

serve_append : (xs ys : List Event) (s : System) → serve (xs ++ ys) s ≡ serve ys (serve xs s)
unfolding serve
serve_append [] ys s = refl
serve_append (x ∷ xs) ys s = serve_append xs ys (step x s)

-- Whatever has happened while the server ran: a connection that has not ended, and whose client has written
-- a handshake and then any messages with numbers that fit, has handed on exactly the commands in the
-- player's own name, in order and unchanged, once as many reads have followed as bytes were waiting.
pub serve-delivered :
    (answers : Answers) (events : List Event) (i : ℕ) (c : Connection)
    → find i (serve events (start_main answers)).connections ≡ some c
    → c.reading ≢ ended
    → (id : ℕ) (ss : List Message) → id < 2 ^ 64
    → All MessageFits ss
    → c.taken ++ c.wire ≡ handshake_bytes id ++ stream_bytes ss
    → HasRead i (delivered id ss) (serve (events ++ reads i (length c.wire)) (start_main answers))
unfolding commands_of
serve-delivered answers events i c here live id ss bound fits bytes =
    rw
      (
        serve_append events (reads i (length c.wire)) (start_main answers),
        sym (run_session-stream_bytes id 0 ss no_sessions bound fits).1,
        sym bytes,
      )
      (serve-HasRead i (length c.wire) c (serve events (start_main answers)) here (omega arith)
        ((serve-AllFaithful answers events i c here).exact live))
