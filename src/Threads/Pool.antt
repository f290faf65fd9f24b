-- ===== src/Threads/Pool.antt =====
-- server/include/ThreadPool.hpp and server/src/ThreadPool.cpp: the pool as a step relation. What is done
-- under the mutex is one step; a task counts as done when it returns, and its future is ready then.
use multilife.Prelude.{ℕ, ◌+◌, ◌-◌, ◌<◌, ◌≡◌, Bool, true, false, List, [], ◌∷◌, ◌++◌}

pub record Pool {ℓ} (A : Type ℓ) : Type ℓ where
  pub tasks : List A
  pub running : List A
  pub finished : List A
  pub waiting : ℕ
  pub stopping : Bool

-- The constructor starts the workers, which wait.
unfoldable pub new {ℓ} : {A : Type ℓ} → ℕ → Pool A
new thread_count = record {
  tasks = [];
  running = [];
  finished = [];
  waiting = thread_count;
  stopping = false;
}

unfoldable pub enqueue {ℓ} : {A : Type ℓ} → A → Pool A → Pool A
enqueue task p = record p { tasks = p.tasks ++ (task ∷ []) }

unfoldable pub shutdown {ℓ} : {A : Type ℓ} → Pool A → Pool A
shutdown p = record p { stopping = true }

-- The steps of a pool. In `workerLoop` a waiting worker takes the first task if there is one, also when
-- the pool is stopping, and leaves only if it is stopping and there is none.
pub data Step {ℓ} {A : Type ℓ} (p : Pool A) : List A → Pool A → Type ℓ where
  enqueued : (task : A) → Step p (task ∷ []) (enqueue task p)
  taken :
      (task : A) (rest : List A)
      → p.tasks ≡ task ∷ rest
      → 0 < p.waiting
      → Step p [] (record p { tasks = rest; running = task ∷ p.running; waiting = p.waiting - 1 })
  returned :
      (before : List A) (task : A) (after : List A)
      → p.running ≡ before ++ (task ∷ after)
      → Step p [] (record p {
        running = before ++ after;
        finished = p.finished ++ (task ∷ []);
        waiting = p.waiting + 1;
      })
  stopped : Step p [] (shutdown p)
  left :
      p.stopping ≡ true
      → p.tasks ≡ []
      → 0 < p.waiting
      → Step p [] (record p { waiting = p.waiting - 1 })

-- Any number of steps, with the tasks that are enqueued on the way, in order.
pub data Steps {ℓ} {A : Type ℓ} (p : Pool A) : List A → Pool A → Type ℓ where
  still : Steps p [] p
  next :
      {old new_ones : List A} {q r : Pool A}
      → Steps p old q
      → Step q new_ones r
      → Steps p (old ++ new_ones) r
