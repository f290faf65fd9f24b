-- ===== src/Sessions/Listener.antt =====
-- server/src/BoostNetworkManager.cpp: `start` and `stop` of the sockets, and the acceptor's handler. What
-- the calls of Boost.Asio answer is an argument; true is an error.
use multilife.Prelude.{
  ℕ, ltb, ◌≢◌, ◌≡◌, refl, Bool, true, false, not, ◌||◌, if◌then◌else◌, [], arith,
}
use multilife.Sessions.{NetworkManager}

pub record Answers : Type 0 where
  pub tcp_open : Bool
  pub set_option : Bool
  pub tcp_bind : Bool
  pub listen : Bool
  pub udp_open : Bool
  pub udp_bind : Bool

-- `m_running`, whether `m_work` holds a guard, which sockets are open, whether an accept is pending, and
-- whether the thread runs `m_ioc`.
pub record Listener : Type 0 where
  pub running : Bool
  pub work : Bool
  pub acceptor_open : Bool
  pub udp_open : Bool
  pub accepting : Bool
  pub io_thread : Bool

abbrev pub new : Listener
new = record {
  running = false;
  work = false;
  acceptor_open = false;
  udp_open = false;
  accepting = false;
  io_thread = false;
}

-- Both sockets are replaced by new ones, which are closed; the acceptor is one of its own until it
-- listens.
abbrev pub prepared : Listener → Listener
prepared l = record l { running = true; work = true; acceptor_open = false; udp_open = false }

abbrev pub given_up : Listener → Listener
given_up l = record l { work = false; running = false }

unfoldable pub start : Answers → Listener → Listener
start a l =
    if l.running
    then l
    else (let p = prepared l in
        let listening = record p { acceptor_open = true } in
        if a.tcp_open
        then given_up p
        else (if a.set_option
            then given_up p
            else (if a.tcp_bind
                then given_up p
                else (if a.listen
                    then given_up p
                    else (if a.udp_open
                        then given_up (record listening { acceptor_open = false })
                        else (if a.udp_bind
                            then given_up
                                (record listening { acceptor_open = false; udp_open = false })
                            else record listening {
                              udp_open = true;
                              accepting = true;
                              io_thread = true;
                            }))))))

-- `others` is the number of the connections that still wait for bytes and are not in `m_sessions`: before
-- their handshake, or replaced by a later one of the same player. Their sockets stay open. The closed
-- acceptor and the closed sockets of the sessions end what waits on them, but the thread, which runs as
-- long as `m_ioc` has work, goes on for the others. The Boolean says whether it ends without their doing
-- anything, so that the `join` and with it the call return.
unfoldable pub stop : ℕ → Listener × NetworkManager → (Listener × NetworkManager) × Bool
stop others (l, n) =
    if l.running
    then (
      (
        record l {
          running = false;
          work = false;
          acceptor_open = false;
          udp_open = false;
          accepting = false;
          io_thread = ltb 0 others;
        },
        record n { sessions = []; udp_endpoints = [] },
      ),
      not (ltb 0 others),
    )
    else ((l, n), true)

-- The handler of an accept: whether a session is started for the socket, and the listener then.
unfoldable pub on_accept : Bool → Listener → Bool × Listener
on_accept error l =
    if l.running
    then (not error, record l { accepting = true })
    else (false, record l { accepting = false })

-- All is open and at work, or nothing is.
pub record IsConsistent (l : Listener) : Type 0 where
  pub at_work : l.work ≡ l.running
  pub tcp : l.acceptor_open ≡ l.running
  pub udp : l.udp_open ≡ l.running
  pub thread : l.io_thread ≡ l.running
  pub accepts : l.accepting ≡ l.running

pub new-IsConsistent : IsConsistent new
new-IsConsistent = record { at_work = refl; tcp = refl; udp = refl; thread = refl; accepts = refl }

abbrev pub fails : Answers → Bool
fails a = a.tcp_open || (a.set_option || (a.tcp_bind || (a.listen || (a.udp_open || a.udp_bind))))

-- A manager that does not run, has no socket open and no session; its thread is still there exactly if
-- the call of `stop` has not returned.
pub record IsStopped (out : (Listener × NetworkManager) × Bool) : Type 0 where
  pub running : out.0.0.running ≡ false
  pub tcp : out.0.0.acceptor_open ≡ false
  pub udp : out.0.0.udp_open ≡ false
  pub sessions : out.0.1.sessions ≡ []
  pub endpoints : out.0.1.udp_endpoints ≡ []
  pub thread : out.0.0.io_thread ≡ not out.1

pub start-IsConsistent :
    (a : Answers) (l : Listener) (n : NetworkManager) (others : ℕ)
    → IsConsistent l
    → IsConsistent (start a l)
      × (l.running ≡ false → (start a l).running ≡ not (fails a))
      × (l.running ≡ true → start a l ≡ l)
      × ((start a l).running ≡ true → IsStopped (stop others (start a l, n)))
      × ((start a l).running ≡ true
          → others ≡ 0
          → ((stop others (start a l, n)).1 ≡ true) × ((stop others (start a l, n)).0.0 ≡ new))
      × ((start a l).running ≡ true → others ≢ 0 → (stop others (start a l, n)).1 ≡ false)
unfolding start stop
start-IsConsistent a l n others h = ground arith
