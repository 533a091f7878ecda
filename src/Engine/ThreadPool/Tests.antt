-- ===== src/Engine/ThreadPool/Tests.antt =====
-- A pool of one thread, and the theorems at it.
use backtester.Prelude.{◌≤◌, [], ◌∷◌, true, false, ◌≡◌, refl}
use backtester.Engine.ThreadPool.{BarLoopThreadPool, new_pool, acquire, release, size}
use backtester.Engine.ThreadPool.Bounds.{
  Reaches, fresh, asks, ends, dies, FullIf, size-bounded, waiting-FullIf,
}
use backtester.Engine.ThreadPool.Served.{OneRunEach}
use backtester.Engine.ThreadPool.Exclusive.{serving-OneRunEach}

-- Run 7 is served, run 8 waits.
abbrev busy_pool : BarLoopThreadPool
busy_pool = record {
  workers = record { id = 0; busy = true; poisoned = false } ∷ [];
  waiting = 8 ∷ [];
  serving = (7, 0) ∷ [];
  closed = false;
  spawned = 1;
}

busy_pool-Reaches : Reaches 1 busy_pool
unfolding acquire
busy_pool-Reaches = asks (acquire 1 7 new_pool) 8 (asks new_pool 7 fresh refl) refl

size-bounded_example : size 1 busy_pool ≤ 1
size-bounded_example = size-bounded 1 busy_pool busy_pool-Reaches

waiting-FullIf_example : FullIf 1 0 (8 ∷ []) busy_pool.workers
waiting-FullIf_example = waiting-FullIf 1 busy_pool busy_pool-Reaches refl

serving-OneRunEach_example : OneRunEach busy_pool.serving
serving-OneRunEach_example = serving-OneRunEach 1 busy_pool busy_pool-Reaches

-- The thread of run 7 is handed on to run 8.
handed_over : (release 1 0 busy_pool).serving ≡ (8, 0) ∷ []
unfolding release
handed_over = refl

-- A thread that dies while no run uses it keeps its place: the next run waits, and nobody is served.
abbrev idle_then_dead : BarLoopThreadPool
idle_then_dead = record {
  workers = record { id = 0; busy = false; poisoned = true } ∷ [];
  waiting = [];
  serving = [];
  closed = false;
  spawned = 1;
}

idle_then_dead-Reaches : Reaches 1 idle_then_dead
unfolding acquire release
idle_then_dead-Reaches =
    dies (release 1 0 (acquire 1 7 new_pool)) 0
      (ends (acquire 1 7 new_pool) 0 (asks new_pool 7 fresh refl) refl)

waits_for_nobody :
    ((acquire 1 8 idle_then_dead).waiting ≡ 8 ∷ []) × ((acquire 1 8 idle_then_dead).serving ≡ [])
unfolding acquire
waits_for_nobody = (refl, refl)

-- A release after the close starts a thread for a run that waited.
abbrev closed_pool : BarLoopThreadPool
closed_pool = record busy_pool { workers = []; closed = true }

starts_after_close : size 1 (release 1 0 closed_pool) ≡ 1
unfolding release acquire size
starts_after_close = refl
