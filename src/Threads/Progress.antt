-- ===== src/Threads/Progress.antt =====
-- server/src/ThreadPool.cpp, `workerLoop`: a pool with a worker comes to an end with its tasks.
use multilife.Prelude.{
  ℕ, suc, ◌+◌, ◌*◌, ◌≤◌, ◌<◌, ◌≡◌, ◌⊎◌, refl, ap, inl, inr, List, [], ◌∷◌, length, length-append,
  arith,
}
use multilife.Threads.Pool.{Pool, Step, enqueued, taken, returned, stopped, left}

module _ {ℓ} {A : Type ℓ} where
  -- What a worker does, and not a caller.
  unfoldable pub IsWork : {p q : Pool A} {js : List A} → Step p js q → Type 0
  IsWork (enqueued task) = ⊥
  IsWork (taken task rest e h) = Unit
  IsWork (returned before task after e) = Unit
  IsWork stopped = ⊥
  IsWork (left s e h) = Unit

  -- So many steps of workers, in whatever order.
  pub data Works (p : Pool A) : ℕ → Pool A → Type ℓ where
    rest : Works p 0 p
    onward :
        {n : ℕ} {q r : Pool A} {js : List A}
        → Works p n q
        → (s : Step q js r) → IsWork s
        → Works p (suc n) r

  -- No worker can do anything.
  abbrev pub IsStuck : Pool A → Type ℓ
  IsStuck q = (js : List A) (r : Pool A) (s : Step q js r) → IsWork s → ⊥

  -- What the workers have before them at most.
  abbrev pub load : Pool A → ℕ
  load p = 3 * length p.tasks + 2 * length p.running + p.waiting

  -- There is a worker for the tasks that wait.
  abbrev HasWorker : Pool A → Type ℓ
  HasWorker p = (p.tasks ≡ []) ⊎ (0 < p.waiting + length p.running)

  Step-load : (q r : Pool A) (js : List A) (s : Step q js r) → IsWork s → load r < load q
  unfolding IsWork
  Step-load q r js (enqueued task) w = absurd w
  Step-load q r js (taken task others e h) w = let l = ap length e in omega (arith, l, h)
  Step-load q r js (returned before task after e) w =
      let l = ap length e in
      omega (arith, l, length-append before (task ∷ after), length-append before after)
  Step-load q r js stopped w = absurd w
  Step-load q r js (left s e h) w = omega (arith, h)

  Step-HasWorker :
      (q r : Pool A) (js : List A) (s : Step q js r) → IsWork s → HasWorker q → HasWorker r
  unfolding IsWork
  Step-HasWorker q r js (enqueued task) w h = absurd w
  Step-HasWorker q r js (taken task others e l) w h = inr (omega arith)
  Step-HasWorker q r js (returned before task after e) w h = inr (omega arith)
  Step-HasWorker q r js stopped w h = absurd w
  Step-HasWorker q r js (left s e l) w h = inl e

  Works-load :
      (p q : Pool A) (n : ℕ) → Works p n q → HasWorker p → (n + load q ≤ load p) × HasWorker q
  Works-load p _ _ rest h = (omega arith, h)
  Works-load p _ _ (onward {n} {q} {r} {js} ws s w) h =
      let (l, k) = Works-load p q n ws h in
      (omega (arith, l, Step-load q r js s w), Step-HasWorker q r js s w k)

  stuck-running : (q : Pool A) (running : List A) → q.running ≡ running → IsStuck q → q.running ≡ []
  unfolding IsWork
  stuck-running q [] e stuck = e
  stuck-running q (task ∷ others) e stuck = absurd (stuck [] _ (returned [] task others e) tt)

  stuck-tasks :
      (q : Pool A) (tasks : List A)
      → q.tasks ≡ tasks
      → q.running ≡ []
      → HasWorker q
      → IsStuck q
      → q.tasks ≡ []
  unfolding IsWork
  stuck-tasks q [] e f h stuck = e
  stuck-tasks q (task ∷ others) e f (inl none) stuck = none
  stuck-tasks q (task ∷ others) e f (inr h) stuck =
      let l = ap length f in absurd (stuck [] _ (taken task others e (omega (arith, h, l))) tt)

  -- A pool that has a worker, waiting or at a task, cannot go on for ever: its workers take at most as
  -- many steps as the load is, which counts 3 for a waiting task, 2 for a running one and 1 for a waiting
  -- worker; and whatever the order was in which they took them, when none can take one any more
  -- no task is left, neither waiting nor running.
  pub Works-done :
      (p q : Pool A) (n : ℕ)
      → 0 < p.waiting + length p.running
      → Works p n q
      → (n ≤ load p) × (IsStuck q → (q.tasks ≡ []) × (q.running ≡ []))
  Works-done p q n h ws =
      let (l, k) = Works-load p q n ws (inr h) in
      (
        omega (arith, l),
        λ stuck.
            let idle = stuck-running q q.running refl stuck in
            (stuck-tasks q q.tasks refl idle k stuck, idle),
      )
