-- ===== src/GameServer/Tasks.antt =====
-- server/src/GameServer.cpp, the two rounds of tasks in `onTick`, on the pool of
-- server/src/ThreadPool.cpp: one task for each chunk, in whatever order the workers run them.
use multilife.Prelude.{
  ℕ, zero, suc, ◌+◌, ◌≡◌, refl, ◌∙◌, ap, if◌then◌else◌, inl, inr, Bool-cases, List, [], ◌∷◌, ◌++◌,
  Option, none, some, Option-cases, each, arith,
}
use mathlib.Core.Option
use multilife.Prelude.Map.{find, insert, find-insert}
use multilife.Types.{ChunkCoord, coord_eq, coord_eq_iff, chunk_coord_eq}
use multilife.Chunk.{Chunk}
use multilife.World.{ChunkMap, coords}
use multilife.Threads.Pool
use multilife.Threads.Pool.{
  Pool, Step, enqueued, taken, returned, stopped, left, Steps, still, next, enqueue, shutdown,
}
use multilife.GameServer.{for_each_chunk}
use multilife.GameServer.Grid.{find-for_each_chunk}

-- The task of a chunk: the work on the chunk that stands at the coordinate.
unfoldable pub run_task : (Chunk → Chunk) → ChunkCoord → ChunkMap → ChunkMap
run_task work k m = elim (find k m) [ none ↦ m | some c ↦ insert k (work c) m ]

unfoldable pub count : ChunkCoord → List ChunkCoord → ℕ
count k [] = 0
count k (j ∷ js) = if coord_eq j k then suc (count k js) else count k js

count-append :
    (k : ChunkCoord) (xs ys : List ChunkCoord) → count k (xs ++ ys) ≡ count k xs + count k ys
unfolding count
count-append k [] ys = omega arith
count-append k (x ∷ xs) ys = ground (arith, count-append k xs ys)

-- How often the task of `k` is in the pool: waiting, running or done.
in_pool : ChunkCoord → Pool ChunkCoord → ℕ
in_pool k p = count k p.tasks + count k p.running + count k p.finished

in_pool-Step :
    (k : ChunkCoord) (p q : Pool ChunkCoord) (js : List ChunkCoord)
    → Step p js q
    → in_pool k q ≡ in_pool k p + count k js
unfolding in_pool count enqueue shutdown
in_pool-Step k p q js (enqueued j) = ground (arith, count-append k p.tasks (j ∷ []))
in_pool-Step k p q js (taken j rest e h) = let f = ap (count k) e in ground (arith, f)
in_pool-Step k p q js (returned before j after e) =
    let f = ap (count k) e in
    ground (
      arith,
      f,
      count-append k before (j ∷ after),
      count-append k before after,
      count-append k p.finished (j ∷ []),
    )
in_pool-Step k p q js stopped = ground arith
in_pool-Step k p q js (left s e h) = ground arith

-- No task is lost and none is run twice.
in_pool-Steps :
    (k : ChunkCoord) (p q : Pool ChunkCoord) (js : List ChunkCoord)
    → Steps p js q
    → in_pool k q ≡ in_pool k p + count k js
unfolding count
in_pool-Steps k p q js still = omega arith
in_pool-Steps k p q js (next {old = old} {new_ones = new_ones} {q = mid} ss s) = omega (
  arith,
  in_pool-Steps k p mid old ss,
  in_pool-Step k mid q new_ones s,
  count-append k old new_ones,
)

unfoldable repeat : ℕ → (Chunk → Chunk) → Option Chunk → Option Chunk
repeat zero work o = o
repeat (suc n) work o = repeat n work (Option.map work o)

untouched :
    (work : Chunk → Chunk) (j k : ChunkCoord) (m : ChunkMap)
    → find j m ≡ none
    → find k m ≡ (if coord_eq j k then Option.map work (find k m) else find k m)
untouched work j k m free = elim (Bool-cases (coord_eq j k)) [
  | inl hit ↦
      let e = (coord_eq_iff j k).0 hit in
      let none_here : find k m ≡ none = rw (← e) free in rw (hit, none_here)
  | inr miss ↦ rw miss
]

touched :
    (work : Chunk → Chunk) (j k : ChunkCoord) (m : ChunkMap) (c : Chunk)
    → find j m ≡ some c
    → find k (insert j (work c) m) ≡ (if coord_eq j k then Option.map work (find k m) else find k m)
touched work j k m c used = elim (Bool-cases (coord_eq j k)) [
  | inl hit ↦
      let e = (coord_eq_iff j k).0 hit in
      let here : find k m ≡ some c = rw (← e) used in rw find-insert (rw (hit, here))
  | inr miss ↦ rw find-insert (rw miss)
]

find-run_task :
    (work : Chunk → Chunk) (j k : ChunkCoord) (m : ChunkMap)
    → find k (run_task work j m) ≡ (if coord_eq j k then Option.map work (find k m) else find k m)
unfolding run_task
find-run_task work j k m = elim (Option-cases (find j m)) [
  | inl free ↦ rw (free, run_task) (untouched work j k m free)
  | inr (c, used) ↦ rw (used, run_task) (touched work j k m c used)
]

find-each_task :
    (work : Chunk → Chunk) (js : List ChunkCoord) (k : ChunkCoord) (m : ChunkMap)
    → find k (each js (run_task work) m) ≡ repeat (count k js) work (find k m)
unfolding each count repeat
find-each_task work [] k m = refl
find-each_task work (j ∷ js) k m = elim (Bool-cases (coord_eq j k)) [
  | inl hit ↦ find-each_task work js k (run_task work j m) ∙ rw (find-run_task work j k m, hit)
  | inr miss ↦ find-each_task work js k (run_task work j m) ∙ rw (find-run_task work j k m, miss)
]

-- The map has one entry for each of its keys.
abbrev pub Distinct : ChunkMap → Type 0
Distinct m = (k : ChunkCoord) (c : Chunk) → find k m ≡ some c → count k (coords m) ≡ 1

repeat-none : (n : ℕ) (work : Chunk → Chunk) → repeat n work none ≡ none
unfolding repeat
repeat-none zero work = refl
repeat-none (suc n) work = repeat-none n work

-- In a pool that starts empty, with one task enqueued for each chunk and any steps of the workers in
-- between: once no task waits or runs, every chunk of the world is as the task leaves it, as if the
-- tasks had been run one after the other.
pub each_task-for_each_chunk :
    (work : Chunk → Chunk) (m : ChunkMap) (threads : ℕ) (q : Pool ChunkCoord) (k : ChunkCoord)
    → Distinct m
    → Steps (Pool.new threads) (coords m) q
    → q.tasks ≡ []
    → q.running ≡ []
    → find k (each q.finished (run_task work) m) ≡ find k (for_each_chunk work m)
unfolding Pool.new count repeat in_pool
each_task-for_each_chunk work m threads q k d ss e f =
    find-each_task work q.finished k m ∙ elim (Option-cases (find k m)) [
      | inl free ↦ rw (find-for_each_chunk work m k, free, repeat-none (count k q.finished) work)
      | inr (c, used) ↦
          let s = in_pool-Steps k (Pool.new threads) q (coords m) ss in
          let one : count k q.finished ≡ 1 =
            omega (arith, s, d k c used, ap (count k) e, ap (count k) f) in
          rw (find-for_each_chunk work m k, one)
    ]
