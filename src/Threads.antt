-- ===== src/Threads.antt =====
-- server/include/ThreadSafeQueue.hpp: the queue between the network's threads and the tick. Each
-- method holds the mutex for the whole of its work, so it is one step on the queue's state; the
-- condition variable only says when to try again.
pub mod Pool
pub mod Scheduler
pub mod Progress
use multilife.Prelude.{
  ℕ, zero, suc, Bool, true, false, if◌then◌else◌, List, [], ◌∷◌, ◌++◌, Option, none, some,
}

-- The values from the front to the back.
unfoldable pub push {ℓ} : {A : Type ℓ} → A → List A → List A
push value queue = queue ++ (value ∷ [])

-- `none` is the return value false.
unfoldable pub try_pop {ℓ} : {A : Type ℓ} → List A → Option A × List A
try_pop [] = (none, [])
try_pop (value ∷ queue) = (some value, queue)

-- What a wake-up of `waitAndPop` comes to.
pub data Wait {ℓ} (A : Type ℓ) : Type ℓ where
  still_waiting : Wait A
  stopped : Wait A
  popped : A → List A → Wait A

unfoldable pub wait_and_pop {ℓ} : {A : Type ℓ} → Bool → List A → Wait A
wait_and_pop should_stop [] = if should_stop then stopped else still_waiting
wait_and_pop should_stop (value ∷ queue) = popped value queue

unfoldable pub empty {ℓ} : {A : Type ℓ} → List A → Bool
empty [] = true
empty (value ∷ queue) = false

-- The loop of `onTick` that takes what is in the queue, with the batch so far; a round takes a value,
-- so the queue's length is fuel enough, when nobody pushes meanwhile.
unfoldable pub drain {ℓ} : {A : Type ℓ} → ℕ → List A → List A → List A × List A
drain zero queue batch = (batch, queue)
drain (suc fuel) queue batch =
    let (out, rest) = try_pop queue in
    elim out [ none ↦ (batch, rest) | some value ↦ drain fuel rest (batch ++ (value ∷ [])) ]
