-- ===== src/Engine/ThreadPool/Bounds.antt =====
-- The pool never exceeds its size, and a run waits only while no thread is free.
use backtester.Prelude.{
  ℕ, suc, ◌+◌, ◌≤◌, List, [], ◌∷◌, ◌++◌, Option, none, some, Bool, true, false, ◌||◌, ltb, ◌==◌,
  ◌≡◌, refl, ap, sym, subst, arith, length, length-append, All, All-append, inl, inr, Bool-cases,
}
use backtester.Engine.ThreadPool.{
  PooledWorker, BarLoopThreadPool, new_pool, is_free, find_free, set_busy, set_poisoned,
  remove_worker, is_poisoned, served_without, acquire, acquire_found, acquire_new, wake_acquire,
  hand_over, release, close, size,
}

abbrev pub is_served : ℕ → List (ℕ × ℕ) → Bool
is_served id [] = false
is_served id ((run, worker) ∷ rest) = worker == id || is_served id rest

-- What happens to a pool: a run asks for a thread of an open pool, the exchange of a thread ends, a
-- thread dies, the pool is closed.
pub data Reaches (max_workers : ℕ) : BarLoopThreadPool → Type 0 where
  fresh : Reaches max_workers new_pool
  asks :
      (p : BarLoopThreadPool) (run : ℕ)
      → Reaches max_workers p
      → p.closed ≡ false
      → Reaches max_workers (acquire max_workers run p)
  ends :
      (p : BarLoopThreadPool) (id : ℕ)
      → Reaches max_workers p
      → is_served id p.serving ≡ true
      → Reaches max_workers (release max_workers id p)
  dies :
      (p : BarLoopThreadPool) (id : ℕ)
      → Reaches max_workers p
      → Reaches max_workers (record p { workers = set_poisoned id p.workers })
  closes :
      (p : BarLoopThreadPool) → Reaches max_workers p → Reaches max_workers (close max_workers p)

abbrev pub NoneFree : List PooledWorker → Type 0
NoneFree ws = All (λ w. is_free w ≡ false) ws

length-set_busy :
    (b : Bool) (id : ℕ) (ws : List PooledWorker) → length (set_busy b id ws) ≡ length ws
length-set_busy b id [] = refl
length-set_busy b id (w ∷ ws) = ap (λ n. suc n) (length-set_busy b id ws)

length-set_poisoned : (id : ℕ) (ws : List PooledWorker) → length (set_poisoned id ws) ≡ length ws
length-set_poisoned id [] = refl
length-set_poisoned id (w ∷ ws) = ap (λ n. suc n) (length-set_poisoned id ws)

length-remove_worker :
    (id : ℕ) (ws : List PooledWorker)
    → (length (remove_worker id ws) ≤ length ws) × (length ws ≤ suc (length (remove_worker id ws)))
length-remove_worker id [] = ground arith
length-remove_worker id (w ∷ ws) = ground (arith, length-remove_worker id ws)

NoneFree-set_poisoned :
    (id : ℕ) (ws : List PooledWorker) → NoneFree ws → NoneFree (set_poisoned id ws)
NoneFree-set_poisoned id [] h = tt
NoneFree-set_poisoned id (w ∷ ws) (h, hs) = ground (arith, NoneFree-set_poisoned id ws hs)

NoneFree-remove_worker :
    (id : ℕ) (ws : List PooledWorker) → NoneFree ws → NoneFree (remove_worker id ws)
NoneFree-remove_worker id [] h = tt
NoneFree-remove_worker id (w ∷ ws) (h, hs) = ground (arith, NoneFree-remove_worker id ws hs)

find_free-NoneFree : (ws : List PooledWorker) → find_free ws ≡ none → NoneFree ws
find_free-NoneFree [] h = tt
find_free-NoneFree (w ∷ ws) h = ground (arith, find_free-NoneFree ws)

NoneFree-find_free : (ws : List PooledWorker) → NoneFree ws → find_free ws ≡ none
NoneFree-find_free [] h = refl
NoneFree-find_free (w ∷ ws) (h, hs) = ground (arith, NoneFree-find_free ws hs)

module _ (max_workers : ℕ) where
  -- If a run waits, then as many threads as may be live, and none of them is free.
  abbrev pub FullIf : ℕ → List ℕ → List PooledWorker → Type 0
  FullIf slack [] ws = Unit
  FullIf slack (run ∷ rest) ws = (max_workers ≤ slack + length ws) × NoneFree ws

  pub record IsSound (p : BarLoopThreadPool) : Type 0 where
    pub bounded : length p.workers ≤ max_workers
    pub full : p.closed ≡ false → FullIf 0 p.waiting p.workers

  FullIf-any :
      (waiting : List ℕ) (ws : List PooledWorker)
      → max_workers ≤ length ws
      → NoneFree ws
      → FullIf 0 waiting ws
  FullIf-any [] ws h k = tt
  FullIf-any (run ∷ rest) ws h k = (omega arith, k)

  FullIf-found :
      (slack id : ℕ) (waiting : List ℕ) (ws us : List PooledWorker)
      → find_free ws ≡ some id
      → FullIf slack waiting ws
      → FullIf 0 waiting us
  FullIf-found slack id [] ws us h k = tt
  FullIf-found slack id (run ∷ rest) ws us h (n, k) = absurd (cc (NoneFree-find_free ws k))

  FullIf-rest :
      (slack run : ℕ) (rest : List ℕ) (ws : List PooledWorker)
      → FullIf slack (run ∷ rest) ws
      → FullIf slack rest ws
  FullIf-rest slack run [] ws h = tt
  FullIf-rest slack run (next ∷ rest) ws h = h

  FullIf-append :
      (waiting : List ℕ) (ws : List PooledWorker) (w : PooledWorker)
      → NoneFree ws
      → is_free w ≡ false
      → FullIf 1 waiting ws
      → FullIf 0 waiting (ws ++ w ∷ [])
  FullIf-append [] ws w n k h = tt
  FullIf-append (run ∷ rest) ws w n k (h, hs) =
      let longer = length-append ws (w ∷ []) in
      (omega (arith, longer, h), All-append (λ v. is_free v ≡ false) ws (w ∷ []) n (k, tt))

  acquire_new-IsSound :
      (run : ℕ) (p : BarLoopThreadPool)
      → NoneFree p.workers
      → length p.workers ≤ max_workers
      → (p.closed ≡ false → FullIf 1 p.waiting p.workers)
      → IsSound (acquire_new max_workers run p)
  acquire_new-IsSound run p n b f = elim (Bool-cases (ltb (length p.workers) max_workers)) [
    | inl e ↦
        let w : PooledWorker = record { id = p.spawned; busy = true; poisoned = false } in
        let longer = length-append p.workers (w ∷ []) in
        rw e (record {
          bounded = ground (arith, longer);
          full = λ c. FullIf-append p.waiting p.workers w n refl (f c);
        })
    | inr e ↦ rw e (record {
      bounded = b;
      full = λ c. FullIf-any (p.waiting ++ run ∷ []) p.workers (ground arith) n;
    })
  ]

  acquire-IsSound :
      (run : ℕ) (p : BarLoopThreadPool)
      → length p.workers ≤ max_workers
      → (p.closed ≡ false → FullIf 1 p.waiting p.workers)
      → IsSound (acquire max_workers run p)
  unfolding acquire
  acquire-IsSound run p b f = by_found (find_free p.workers) refl
    where
      by_found :
          (o : Option ℕ) → find_free p.workers ≡ o → IsSound (acquire_found max_workers run p o)
      by_found (some id) e = record {
        bounded = subst (λ n. n ≤ max_workers) (sym (length-set_busy true id p.workers)) b;
        full = λ c. FullIf-found 1 id p.waiting p.workers _ e (f c);
      }
      by_found none e = acquire_new-IsSound run p (find_free-NoneFree p.workers e) b f

  wake_acquire-IsSound :
      (p : BarLoopThreadPool) (waiting : List ℕ)
      → length p.workers ≤ max_workers
      → (p.closed ≡ false → FullIf 1 waiting p.workers)
      → IsSound (wake_acquire max_workers (record p { waiting = waiting }) waiting)
  wake_acquire-IsSound p [] b f = record { bounded = b; full = λ c. tt }
  wake_acquire-IsSound p (run ∷ rest) b f =
      acquire-IsSound run (record p { waiting = rest }) b
        (λ c. FullIf-rest 1 run rest p.workers (f c))

  removed-FullIf :
      (id : ℕ) (waiting : List ℕ) (ws : List PooledWorker)
      → FullIf 0 waiting ws
      → FullIf 1 waiting (remove_worker id ws)
  removed-FullIf id [] ws h = tt
  removed-FullIf id (run ∷ rest) ws (h, hs) =
      let shorter = length-remove_worker id ws in
      (omega (arith, shorter.1, h), NoneFree-remove_worker id ws hs)

  poisoned-FullIf :
      (id : ℕ) (waiting : List ℕ) (ws : List PooledWorker)
      → FullIf 0 waiting ws
      → FullIf 0 waiting (set_poisoned id ws)
  poisoned-FullIf id [] ws h = tt
  poisoned-FullIf id (run ∷ rest) ws (h, hs) =
      let same = length-set_poisoned id ws in
      (omega (arith, same, h), NoneFree-set_poisoned id ws hs)

  hand_over-IsSound :
      (id : ℕ) (p : BarLoopThreadPool) (waiting : List ℕ)
      → length p.workers ≤ max_workers
      → (p.closed ≡ false → FullIf 0 waiting p.workers)
      → IsSound (hand_over max_workers id (record p { waiting = waiting }) waiting)
  hand_over-IsSound id p [] b f = record {
    bounded = subst (λ n. n ≤ max_workers) (sym (length-set_busy false id p.workers)) b;
    full = λ c. tt;
  }
  hand_over-IsSound id p (run ∷ rest) b f = record {
    bounded = b;
    full = λ c. FullIf-rest 0 run rest p.workers (f c);
  }

  release-IsSound :
      (id : ℕ) (p : BarLoopThreadPool) → IsSound p → IsSound (release max_workers id p)
  unfolding release
  release-IsSound id p s = elim (Bool-cases (is_poisoned id p.workers || p.closed)) [
    | inl e ↦
        let shorter = length-remove_worker id p.workers in
        rw e (
          wake_acquire-IsSound
            (record p {
              serving = served_without id p.serving;
              workers = remove_worker id p.workers;
            })
            p.waiting (ground (arith, shorter.0, s.bounded))
            (λ c. removed-FullIf id p.waiting p.workers (s.full c)))
    | inr e ↦ rw e (
        hand_over-IsSound id (record p { serving = served_without id p.serving }) p.waiting
          s.bounded s.full)
  ]

  FullIf-slack :
      (waiting : List ℕ) (ws : List PooledWorker) → FullIf 0 waiting ws → FullIf 1 waiting ws
  FullIf-slack [] ws h = tt
  FullIf-slack (run ∷ rest) ws (h, hs) = (omega (arith, h), hs)

  Reaches-IsSound : (p : BarLoopThreadPool) → Reaches max_workers p → IsSound p
  unfolding close
  Reaches-IsSound p fresh = record { bounded = ground arith; full = λ c. tt }
  Reaches-IsSound p (asks q run r c) =
      let s = Reaches-IsSound q r in
      acquire-IsSound run q s.bounded (λ k. FullIf-slack q.waiting q.workers (s.full k))
  Reaches-IsSound p (ends q id r h) = release-IsSound id q (Reaches-IsSound q r)
  Reaches-IsSound p (dies q id r) =
      let s = Reaches-IsSound q r in
      record {
        bounded = subst (λ n. n ≤ max_workers) (sym (length-set_poisoned id q.workers)) s.bounded;
        full = λ c. poisoned-FullIf id q.waiting q.workers (s.full c);
      }
  Reaches-IsSound p (closes q r) = record { bounded = ground arith; full = λ c. absurd (cc) }

  -- Any pool that has come about from a new one by runs that ask, exchanges that end, threads that
  -- die and a close has no more threads than its maximum.
  pub size-bounded :
      (p : BarLoopThreadPool) → Reaches max_workers p → size max_workers p ≤ max_workers
  unfolding size
  size-bounded p r = (Reaches-IsSound p r).bounded

  -- In any pool that has come about from a new one by runs that ask, exchanges that end and threads
  -- that die, and that is not closed, a run waits only if as many threads are in the pool as may
  -- be, and each of them is busy or dead.
  pub waiting-FullIf :
      (p : BarLoopThreadPool)
      → Reaches max_workers p
      → p.closed ≡ false
      → FullIf 0 p.waiting p.workers
  waiting-FullIf p r c = (Reaches-IsSound p r).full c
