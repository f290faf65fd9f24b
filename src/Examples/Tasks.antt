-- ===== src/Examples/Tasks.antt =====
-- The theorems on the tasks of a tick, at a run of a pool with two workers.
use multilife.Threads.Progress.{IsWork, Works, rest, onward, IsStuck, load, Works-done}
use multilife.Prelude.{◌≤◌, ◌≡◌, refl, [], ◌∷◌, each, false, arith}
use multilife.Prelude.Map.{find}
use multilife.Types.{ChunkCoord, chunk_coord_eq}
use multilife.Chunk.{calculate_next}
use multilife.World.{coords}
use multilife.Threads.Pool
use multilife.Threads.Pool.{Pool, Step, enqueued, taken, returned, Steps, still, next, enqueue}
use multilife.GameServer.{for_each_chunk}
use multilife.GameServer.Tasks.{Distinct, count, run_task, each_task-for_each_chunk}
use multilife.Examples.{origin, small_world}

abbrev done : Pool ChunkCoord
done = record { tasks = []; running = []; finished = origin ∷ []; waiting = 2; stopping = false }

run : Steps (Pool.new 2) (coords small_world) done
unfolding Pool.new enqueue
run =
    next (next (next still (enqueued origin)) (taken origin [] refl (omega arith)))
      (returned [] origin [] refl)

small_world-Distinct : Distinct small_world
unfolding find count
small_world-Distinct k c e = ground (arith, e)

each_task-for_each_chunk_example :
    find origin (each (origin ∷ []) (run_task calculate_next) small_world)
    ≡ find origin (for_each_chunk calculate_next small_world)
each_task-for_each_chunk_example =
    each_task-for_each_chunk calculate_next small_world 2 done origin small_world-Distinct run refl
      refl

abbrev one_task : Pool ChunkCoord
one_task = enqueue origin (Pool.new 2)

two_steps : Works one_task 2 done
unfolding Pool.new enqueue IsWork
two_steps =
    onward (onward rest (taken origin [] refl (omega arith)) tt) (returned [] origin [] refl) tt

Works-done_example : (2 ≤ load one_task) × (IsStuck done → (done.tasks ≡ []) × (done.running ≡ []))
unfolding Pool.new enqueue
Works-done_example = Works-done one_task done 2 (omega arith) two_steps
