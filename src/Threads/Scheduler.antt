-- ===== src/Threads/Scheduler.antt =====
-- server/include/TickScheduler.hpp and server/src/TickScheduler.cpp: the thread that calls the tick. The
-- clock is a number that grows, and a step of the thread is a test of the flag, a call of the tick, or
-- the end of a sleep.
use multilife.Prelude.{ℕ, ◌+◌, ◌*◌, ◌≤◌, ◌≡◌, ◌≢◌, Bool, true, false, if◌then◌else◌, arith}

-- Where the thread is in `runLoop`. `ended` is also the state before the first start; a thread that has
-- ended is joined by `stop`.
pub data Phase : Type 0 where
  ended testing calling sleeping : Phase

-- `started_at` and `ticks` belong to the run of the loop and are only there to speak of it.
pub record Scheduler : Type 0 where
  pub interval : ℕ
  pub running : Bool
  pub phase : Phase
  pub next_tick : ℕ
  pub now : ℕ
  pub started_at : ℕ
  pub ticks : ℕ

abbrev pub new : ℕ → ℕ → Scheduler
new interval now = record {
  interval = interval;
  running = false;
  phase = ended;
  next_tick = now;
  now = now;
  started_at = now;
  ticks = 0;
}

-- `start`: nothing if it runs, and otherwise a thread, whose first tick is due now.
unfoldable pub start : Scheduler → Scheduler
start s = if s.running then s else record s {
  running = true;
  phase = testing;
  next_tick = s.now;
  started_at = s.now;
  ticks = 0;
}

-- The first half of `stop`; the second waits until the thread has ended.
unfoldable pub request_stop : Scheduler → Scheduler
request_stop s = record s { running = false }

-- `nextTick += m_tickInterval`
unfoldable pub enter_round : Scheduler → Scheduler
enter_round s =
    if s.running
    then record s { phase = calling; next_tick = s.next_tick + s.interval }
    else record s { phase = ended }

-- `m_tickCallback()`
unfoldable pub call_tick : Scheduler → Scheduler
call_tick s = record s { phase = sleeping; ticks = s.ticks + 1 }

-- A start comes before the first stop or after one that has returned, when the thread has ended.
pub data Step (s : Scheduler) : Scheduler → Type 0 where
  started : s.phase ≡ ended → Step s (start s)
  started_again : s.running ≡ true → Step s (start s)
  stop_requested : Step s (request_stop s)
  tested : s.phase ≡ testing → Step s (enter_round s)
  called : s.phase ≡ calling → Step s (call_tick s)
  woken : s.phase ≡ sleeping → s.next_tick ≤ s.now → Step s (record s { phase = testing })
  elapsed : (time : ℕ) → Step s (record s { now = s.now + time })

pub data Steps (s : Scheduler) : Scheduler → Type 0 where
  still : Steps s s
  next : {t u : Scheduler} → Steps s t → Step t u → Steps s u

-- The schedule of a run: tick number k is due k - 1 intervals after the start, whatever the ticks before it
-- took, and does not come earlier.
pub record OnSchedule (s : Scheduler) : Type 0 where
  pub asleep : s.phase ≡ sleeping → s.next_tick ≡ s.started_at + s.ticks * s.interval
  pub awake : s.phase ≡ testing → s.next_tick ≡ s.started_at + s.ticks * s.interval
  pub due : s.phase ≡ testing → s.next_tick ≤ s.now
  pub called : s.phase ≡ calling → s.next_tick ≡ s.started_at + (s.ticks + 1) * s.interval
  pub in_time : s.phase ≡ calling → s.next_tick ≤ s.now + s.interval
  pub bounded : s.started_at + s.ticks * s.interval ≤ s.now + s.interval
  pub stops : s.running ≡ true → s.phase ≢ ended

one_more :
    (start ticks interval : ℕ)
    → start + (ticks + 1) * interval ≡ start + ticks * interval + interval
one_more start ticks interval = grind arith

Step-OnSchedule : (s t : Scheduler) → Step s t → OnSchedule s → OnSchedule t
unfolding start request_stop enter_round call_tick
Step-OnSchedule s t (started e) h = ground arith
Step-OnSchedule s t (started_again e) h = ground arith
Step-OnSchedule s t stop_requested h = ground arith
Step-OnSchedule s t (tested e) h =
    let more = one_more s.started_at s.ticks s.interval in ground (arith, h.awake e, h.due e, more)
Step-OnSchedule s t (called e) h =
    let more = one_more s.started_at s.ticks s.interval in
    ground (arith, h.called e, h.in_time e, more)
Step-OnSchedule s t (woken e d) h = ground arith
Step-OnSchedule s t (elapsed time) h = ground arith

Steps-OnSchedule-from : (s t : Scheduler) → Steps s t → OnSchedule s → OnSchedule t
Steps-OnSchedule-from s _ still h = h
Steps-OnSchedule-from s u (next {t} r r') h = Step-OnSchedule t u r' (Steps-OnSchedule-from s t r h)

new-OnSchedule : (interval now : ℕ) → OnSchedule (new interval now)
new-OnSchedule interval now = ground arith

-- In every state that a scheduler reaches, with starts, stops, and ticks of any length, the run keeps its
-- schedule: when its thread sleeps, it sleeps until the start plus as many intervals as ticks were called,
-- so delays do not add up, it tests the flag only at or after that time, and the ticks called are at
-- most one more than the intervals that have passed since the start.
pub Steps-OnSchedule :
    (interval now : ℕ) → (s : Scheduler) → Steps (new interval now) s → OnSchedule s
Steps-OnSchedule interval now s r =
    Steps-OnSchedule-from (new interval now) s r (new-OnSchedule interval now)
