-- ===== src/Engine/ThreadPool.antt =====
-- engine/thread/thread-pool.ts: the pool of warm threads. A run waits by its number; what `acquire`
-- and `release` do between two awaits is one step. The thread and its messages are the runtime's:
-- a thread dies by a step of its own.
pub mod Bounds
pub mod Served
pub mod Exclusive
pub mod Tests
use backtester.Prelude.{
  ℕ, suc, List, [], ◌∷◌, ◌++◌, Option, none, some, Bool, true, false, not, ◌&&◌, ◌||◌, ltb, ◌==◌,
  if◌then◌else◌, length, filter,
}

pub record PooledWorker : Type 0 where
  pub id : ℕ
  pub busy : Bool
  pub poisoned : Bool

-- `serving` are the runs in their exchange, each with its thread.
pub record BarLoopThreadPool : Type 0 where
  pub workers : List PooledWorker
  pub waiting : List ℕ
  pub serving : List (ℕ × ℕ)
  pub closed : Bool
  pub spawned : ℕ

abbrev pub new_pool : BarLoopThreadPool
new_pool = record { workers = []; waiting = []; serving = []; closed = false; spawned = 0 }

abbrev pub is_free : PooledWorker → Bool
is_free w = not w.busy && not w.poisoned

-- `workers.find(...)`.
abbrev pub find_free : List PooledWorker → Option ℕ
find_free [] = none
find_free (w ∷ ws) = if is_free w then some w.id else find_free ws

-- A thread is one object, so that its id is that of at most one of the list.
abbrev pub set_busy : Bool → ℕ → List PooledWorker → List PooledWorker
set_busy b id [] = []
set_busy b id (w ∷ ws) = (if w.id == id then record w { busy = b } else w) ∷ set_busy b id ws

abbrev pub set_poisoned : ℕ → List PooledWorker → List PooledWorker
set_poisoned id [] = []
set_poisoned id (w ∷ ws) =
    (if w.id == id then record w { poisoned = true } else w) ∷ set_poisoned id ws

abbrev pub remove_worker : ℕ → List PooledWorker → List PooledWorker
remove_worker id [] = []
remove_worker id (w ∷ ws) = if w.id == id then ws else w ∷ remove_worker id ws

-- Whether a thread is poisoned; one that is no longer in the pool ends with it.
abbrev pub is_poisoned : ℕ → List PooledWorker → Bool
is_poisoned id [] = true
is_poisoned id (w ∷ ws) = if w.id == id then w.poisoned else is_poisoned id ws

abbrev pub served_without : ℕ → List (ℕ × ℕ) → List (ℕ × ℕ)
served_without id [] = []
served_without id ((run, worker) ∷ rest) =
    if worker == id then rest else (run, worker) ∷ served_without id rest

module _ (max_workers : ℕ) where
  abbrev pub acquire_new : ℕ → BarLoopThreadPool → BarLoopThreadPool
  acquire_new run p =
      if ltb (length p.workers) max_workers
      then record p {
        workers = p.workers ++ (record { id = p.spawned; busy = true; poisoned = false } ∷ []);
        serving = (run, p.spawned) ∷ p.serving;
        spawned = suc p.spawned;
      }
      else record p { waiting = p.waiting ++ (run ∷ []) }

  abbrev pub acquire_found : ℕ → BarLoopThreadPool → Option ℕ → BarLoopThreadPool
  acquire_found run p none = acquire_new run p
  acquire_found run p (some id) = record p {
    workers = set_busy true id p.workers;
    serving = (run, id) ∷ p.serving;
  }

  unfoldable pub acquire : ℕ → BarLoopThreadPool → BarLoopThreadPool
  acquire run p = acquire_found run p (find_free p.workers)

  abbrev pub wake_acquire : BarLoopThreadPool → List ℕ → BarLoopThreadPool
  wake_acquire p [] = p
  wake_acquire p (next ∷ rest) = acquire next (record p { waiting = rest })

  abbrev pub hand_over : ℕ → BarLoopThreadPool → List ℕ → BarLoopThreadPool
  hand_over id p [] = record p { workers = set_busy false id p.workers }
  hand_over id p (next ∷ rest) = record p { waiting = rest; serving = (next, id) ∷ p.serving }

  -- The end of the exchange of a thread, and its release.
  unfoldable pub release : ℕ → BarLoopThreadPool → BarLoopThreadPool
  release id p =
      let q = record p { serving = served_without id p.serving } in
      if is_poisoned id p.workers || p.closed
      then wake_acquire (record q { workers = remove_worker id p.workers }) p.waiting
      else hand_over id q p.waiting

  unfoldable pub close : BarLoopThreadPool → BarLoopThreadPool
  close p = record p { workers = []; closed = true }

  unfoldable pub size : BarLoopThreadPool → ℕ
  size p = length p.workers
