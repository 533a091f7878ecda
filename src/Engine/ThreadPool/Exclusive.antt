-- ===== src/Engine/ThreadPool/Exclusive.antt =====
-- A thread serves one run at a time.
use backtester.Prelude.{
  ℕ, suc, ◌<◌, List, [], ◌∷◌, Option, none, some, true, false, ◌||◌, ltb, ◌≡◌, refl, arith, length,
  All-append, inl, inr, Bool-cases,
}
use backtester.Engine.ThreadPool.{
  BarLoopThreadPool, find_free, is_poisoned, served_without, acquire, acquire_found, acquire_new,
  wake_acquire, hand_over, release, close,
}
use backtester.Engine.ThreadPool.Bounds.{is_served, Reaches, fresh, asks, ends, dies, closes}
use backtester.Engine.ThreadPool.Served.{
  OneRunEach, marks, AllMarked, AllBelow, ServedBelow, find_free-unserved, below-unserved,
  AllMarked-set_busy, AllBelow-set_busy, AllBelow-up, ServedBelow-up, AllMarked-new,
  AllMarked-set_poisoned, AllBelow-set_poisoned, served_without-gone, served_without-OneRunEach,
  served_without-Below, AllMarked-less, AllMarked-set_free, AllMarked-kept, AllMarked-remove_worker,
  AllBelow-remove_worker, served_id-below,
}

record IsExclusive (p : BarLoopThreadPool) : Type 0 where
  one_run : OneRunEach p.serving
  marked : AllMarked p.serving p.workers
  below : AllBelow p.spawned p.workers
  served_below : ServedBelow p.spawned p.serving

module _ (max_workers : ℕ) where
  acquire_new-IsExclusive :
      (run : ℕ) (p : BarLoopThreadPool)
      → IsExclusive p
      → IsExclusive (acquire_new max_workers run p)
  acquire_new-IsExclusive run p x = elim (Bool-cases (ltb (length p.workers) max_workers)) [
    | inl e ↦ rw e (record {
      one_run = (below-unserved p.spawned p.serving x.served_below, x.one_run);
      marked =
          All-append (λ w. marks ((run, p.spawned) ∷ p.serving) w ≡ true) p.workers _
            (AllMarked-new run p.spawned p.serving p.workers x.below x.marked) (ground arith, tt);
      below =
          All-append (λ w. w.id < suc p.spawned) p.workers _
            (AllBelow-up p.spawned p.workers x.below) (ground arith, tt);
      served_below = (ground arith, ServedBelow-up p.spawned p.serving x.served_below);
    })
    | inr e ↦ rw e (record {
      one_run = x.one_run;
      marked = x.marked;
      below = x.below;
      served_below = x.served_below;
    })
  ]

  acquire-IsExclusive :
      (run : ℕ) (p : BarLoopThreadPool) → IsExclusive p → IsExclusive (acquire max_workers run p)
  unfolding acquire
  acquire-IsExclusive run p x = by_found (find_free p.workers) refl
    where
      by_found :
          (o : Option ℕ) → find_free p.workers ≡ o → IsExclusive (acquire_found max_workers run p o)
      by_found none e = acquire_new-IsExclusive run p x
      by_found (some id) e =
          let own = find_free-unserved p.serving p.spawned p.workers id e x.marked x.below in
          record {
            one_run = (own.0, x.one_run);
            marked = AllMarked-set_busy run id p.serving p.workers x.marked;
            below = AllBelow-set_busy true id p.spawned p.workers x.below;
            served_below = (own.1, x.served_below);
          }

  wake_acquire-IsExclusive :
      (p : BarLoopThreadPool) (waiting : List ℕ)
      → IsExclusive p
      → IsExclusive (wake_acquire max_workers p waiting)
  wake_acquire-IsExclusive p [] x = x
  wake_acquire-IsExclusive p (run ∷ rest) x =
      acquire-IsExclusive run (record p { waiting = rest })
        (record {
          one_run = x.one_run;
          marked = x.marked;
          below = x.below;
          served_below = x.served_below;
        })

  hand_over-IsExclusive :
      (id : ℕ) (p : BarLoopThreadPool) (waiting : List ℕ)
      → is_served id p.serving ≡ true
      → IsExclusive p
      → IsExclusive
          (hand_over max_workers id (record p { serving = served_without id p.serving }) waiting)
  hand_over-IsExclusive id p [] u x = record {
    one_run = served_without-OneRunEach id p.serving x.one_run;
    marked =
        AllMarked-set_free id (served_without id p.serving) p.workers
          (served_without-gone id p.serving x.one_run)
          (AllMarked-less id p.serving p.workers x.marked);
    below = AllBelow-set_busy false id p.spawned p.workers x.below;
    served_below = served_without-Below id p.spawned p.serving x.served_below;
  }
  hand_over-IsExclusive id p (run ∷ rest) u x = record {
    one_run = (
      served_without-gone id p.serving x.one_run,
      served_without-OneRunEach id p.serving x.one_run,
    );
    marked = AllMarked-kept run id p.serving p.workers u x.marked;
    below = x.below;
    served_below = (
      served_id-below id p.spawned p.serving x.served_below u,
      served_without-Below id p.spawned p.serving x.served_below,
    );
  }

  release-IsExclusive :
      (id : ℕ) (p : BarLoopThreadPool)
      → is_served id p.serving ≡ true
      → IsExclusive p
      → IsExclusive (release max_workers id p)
  unfolding release
  release-IsExclusive id p u x = elim (Bool-cases (is_poisoned id p.workers || p.closed)) [
    | inl e ↦ rw e (
        wake_acquire-IsExclusive _ p.waiting (record {
          one_run = served_without-OneRunEach id p.serving x.one_run;
          marked =
              AllMarked-remove_worker id (served_without id p.serving) p.workers
                (AllMarked-less id p.serving p.workers x.marked);
          below = AllBelow-remove_worker id p.spawned p.workers x.below;
          served_below = served_without-Below id p.spawned p.serving x.served_below;
        }))
    | inr e ↦ rw e (hand_over-IsExclusive id p p.waiting u x)
  ]

  Reaches-IsExclusive : (p : BarLoopThreadPool) → Reaches max_workers p → IsExclusive p
  unfolding close
  Reaches-IsExclusive p fresh = record { one_run = tt; marked = tt; below = tt; served_below = tt }
  Reaches-IsExclusive p (asks q run r c) = acquire-IsExclusive run q (Reaches-IsExclusive q r)
  Reaches-IsExclusive p (ends q id r h) = release-IsExclusive id q h (Reaches-IsExclusive q r)
  Reaches-IsExclusive p (dies q id r) =
      let x = Reaches-IsExclusive q r in
      record {
        one_run = x.one_run;
        marked = AllMarked-set_poisoned id q.serving q.workers x.marked;
        below = AllBelow-set_poisoned id q.spawned q.workers x.below;
        served_below = x.served_below;
      }
  Reaches-IsExclusive p (closes q r) =
      let x = Reaches-IsExclusive q r in
      record { one_run = x.one_run; marked = tt; below = tt; served_below = x.served_below }

  -- In any pool that can come about from a new one by runs that ask, exchanges that end, threads
  -- that die and a close, no thread serves two runs.
  pub serving-OneRunEach : (p : BarLoopThreadPool) → Reaches max_workers p → OneRunEach p.serving
  serving-OneRunEach p r = (Reaches-IsExclusive p r).one_run
