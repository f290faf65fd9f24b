-- ===== src/Examples/Service.antt =====
-- The theorems on the listener and the scheduler: a port that is taken, and a scheduler after a tick.
use multilife.Prelude.{ℕ, ◌+◌, refl, true, false}
use multilife.Sessions.Listener.{Answers, new, start}
use multilife.Threads.Scheduler
use multilife.Threads.Scheduler.{
  Scheduler, Step, Steps, still, next, started, tested, called, elapsed, enter_round, call_tick,
  OnSchedule, Steps-OnSchedule,
}

-- The UDP port is taken.
abbrev taken : Answers
taken = record {
  tcp_open = false;
  set_option = false;
  tcp_bind = false;
  listen = false;
  udp_open = false;
  udp_bind = true;
}

abbrev one : ℕ
one = 1

-- The first tick has been called, and took longer than the interval.
abbrev late : Scheduler
late =
    let s = call_tick (enter_round (Scheduler.start (Scheduler.new 1000 50))) in
    record s { now = s.now + 1200 }

to_late : Steps (Scheduler.new 1000 50) late
unfolding Scheduler.start enter_round call_tick
to_late = next (next (next (next still (started refl)) (tested refl)) (called refl)) (elapsed 1200)

Steps-OnSchedule_example : OnSchedule late
Steps-OnSchedule_example = Steps-OnSchedule 1000 50 late to_late
