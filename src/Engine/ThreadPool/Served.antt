-- ===== src/Engine/ThreadPool/Served.antt =====
-- What the pool's lists say of the threads that serve.
use backtester.Prelude.{
  ℕ, suc, ◌<◌, List, [], ◌∷◌, some, Bool, true, false, not, ◌||◌, ◌==◌, ◌≡◌, refl, ap, sym, subst,
  arith, if◌then◌else◌, All, inl, inr, Bool-cases,
}
use backtester.Engine.ThreadPool.{
  PooledWorker, is_free, find_free, set_busy, set_poisoned, remove_worker, served_without,
}
use backtester.Engine.ThreadPool.Bounds.{is_served}

-- No thread stands twice among the exchanges.
abbrev pub OneRunEach : List (ℕ × ℕ) → Type 0
OneRunEach [] = Unit
OneRunEach ((run, worker) ∷ rest) = (is_served worker rest ≡ false) × OneRunEach rest

-- A thread of the pool that serves a run is marked as busy.
abbrev pub marks : List (ℕ × ℕ) → PooledWorker → Bool
marks serving w = not (is_served w.id serving) || w.busy

abbrev pub AllMarked : List (ℕ × ℕ) → List PooledWorker → Type 0
AllMarked serving ws = All (λ w. marks serving w ≡ true) ws

abbrev pub AllBelow : ℕ → List PooledWorker → Type 0
AllBelow n ws = All (λ w. w.id < n) ws

abbrev pub ServedBelow : ℕ → List (ℕ × ℕ) → Type 0
ServedBelow n serving = All (λ s. s.1 < n) serving

pub find_free-unserved :
    (serving : List (ℕ × ℕ)) (n : ℕ) (ws : List PooledWorker) (id : ℕ)
    → find_free ws ≡ some id
    → AllMarked serving ws
    → AllBelow n ws
    → (is_served id serving ≡ false) × (id < n)
find_free-unserved serving n [] id h m b = absurd (cc)
find_free-unserved serving n (w ∷ ws) id h (m, ms) (b, bs) =
    by_free (is_free w) refl h (λ k. find_free-unserved serving n ws id k ms bs)
  where
    by_free :
        (c : Bool)
        → is_free w ≡ c
        → (if c then some w.id else find_free ws) ≡ some id
        → (find_free ws ≡ some id → (is_served id serving ≡ false) × (id < n))
        → (is_served id serving ≡ false) × (id < n)
    by_free true e k rest =
        let same : w.id ≡ id = cc in
        subst (λ i. (is_served i serving ≡ false) × (i < n)) same (ground arith, b)
    by_free false e k rest = rest k

pub below-unserved :
    (n : ℕ) (serving : List (ℕ × ℕ)) → ServedBelow n serving → is_served n serving ≡ false
below-unserved n [] h = refl
below-unserved n (s ∷ rest) (h, hs) = ground (arith, below-unserved n rest)

pub AllMarked-set_busy :
    (run id : ℕ) (serving : List (ℕ × ℕ)) (ws : List PooledWorker)
    → AllMarked serving ws
    → AllMarked ((run, id) ∷ serving) (set_busy true id ws)
AllMarked-set_busy run id serving [] h = tt
AllMarked-set_busy run id serving (w ∷ ws) (h, hs) =
    (ground arith, AllMarked-set_busy run id serving ws hs)

pub AllBelow-set_busy :
    (b : Bool) (id n : ℕ) (ws : List PooledWorker) → AllBelow n ws → AllBelow n (set_busy b id ws)
AllBelow-set_busy b id n [] h = tt
AllBelow-set_busy b id n (w ∷ ws) (h, hs) = (ground arith, AllBelow-set_busy b id n ws hs)

pub AllBelow-up : (n : ℕ) (ws : List PooledWorker) → AllBelow n ws → AllBelow (suc n) ws
AllBelow-up n [] h = tt
AllBelow-up n (w ∷ ws) (h, hs) = (omega arith, AllBelow-up n ws hs)

pub ServedBelow-up :
    (n : ℕ) (serving : List (ℕ × ℕ)) → ServedBelow n serving → ServedBelow (suc n) serving
ServedBelow-up n [] h = tt
ServedBelow-up n (s ∷ rest) (h, hs) = (omega arith, ServedBelow-up n rest hs)

pub AllMarked-new :
    (run n : ℕ) (serving : List (ℕ × ℕ)) (ws : List PooledWorker)
    → AllBelow n ws
    → AllMarked serving ws
    → AllMarked ((run, n) ∷ serving) ws
AllMarked-new run n serving [] b h = tt
AllMarked-new run n serving (w ∷ ws) (b, bs) (h, hs) =
    (ground arith, AllMarked-new run n serving ws bs hs)

pub AllMarked-set_poisoned :
    (id : ℕ) (serving : List (ℕ × ℕ)) (ws : List PooledWorker)
    → AllMarked serving ws
    → AllMarked serving (set_poisoned id ws)
AllMarked-set_poisoned id serving [] h = tt
AllMarked-set_poisoned id serving (w ∷ ws) (h, hs) =
    (ground arith, AllMarked-set_poisoned id serving ws hs)

pub AllBelow-set_poisoned :
    (id n : ℕ) (ws : List PooledWorker) → AllBelow n ws → AllBelow n (set_poisoned id ws)
AllBelow-set_poisoned id n [] h = tt
AllBelow-set_poisoned id n (w ∷ ws) (h, hs) = (ground arith, AllBelow-set_poisoned id n ws hs)

same_number : (m n : ℕ) → (m == n) ≡ true → m ≡ n
same_number m n h = ground arith

-- The exchange that ended is the only one of its thread.
pub served_without-gone :
    (id : ℕ) (serving : List (ℕ × ℕ))
    → OneRunEach serving
    → is_served id (served_without id serving) ≡ false
served_without-gone id [] h = refl
served_without-gone id ((run, worker) ∷ rest) (h, hs) = elim (Bool-cases (worker == id)) [
  | inl e ↦ rw e (subst (λ i. is_served i rest ≡ false) (same_number worker id e) h)
  | inr e ↦ rw (e, e) (served_without-gone id rest hs)
]

served_without-less :
    (id j : ℕ) (serving : List (ℕ × ℕ))
    → is_served j serving ≡ false
    → is_served j (served_without id serving) ≡ false
served_without-less id j [] h = refl
served_without-less id j ((run, worker) ∷ rest) h = ground (arith, served_without-less id j rest)

pub served_without-OneRunEach :
    (id : ℕ) (serving : List (ℕ × ℕ)) → OneRunEach serving → OneRunEach (served_without id serving)
served_without-OneRunEach id [] h = tt
served_without-OneRunEach id ((run, worker) ∷ rest) (h, hs) =
    ground (arith, served_without-OneRunEach id rest hs, served_without-less id worker rest h)

pub served_without-Below :
    (id n : ℕ) (serving : List (ℕ × ℕ))
    → ServedBelow n serving
    → ServedBelow n (served_without id serving)
served_without-Below id n [] h = tt
served_without-Below id n ((run, worker) ∷ rest) (h, hs) =
    ground (arith, served_without-Below id n rest hs)

pub AllMarked-less :
    (id : ℕ) (serving : List (ℕ × ℕ)) (ws : List PooledWorker)
    → AllMarked serving ws
    → AllMarked (served_without id serving) ws
AllMarked-less id serving [] h = tt
AllMarked-less id serving (w ∷ ws) (h, hs) =
    (ground (arith, served_without-less id w.id serving), AllMarked-less id serving ws hs)

pub AllMarked-set_free :
    (id : ℕ) (serving : List (ℕ × ℕ)) (ws : List PooledWorker)
    → is_served id serving ≡ false
    → AllMarked serving ws
    → AllMarked serving (set_busy false id ws)
AllMarked-set_free id serving [] u h = tt
AllMarked-set_free id serving (w ∷ ws) u (h, hs) =
    (by_id (w.id == id) refl, AllMarked-set_free id serving ws u hs)
  where
    by_id :
        (c : Bool)
        → (w.id == id) ≡ c
        → marks serving (if c then record w { busy = false } else w) ≡ true
    by_id true e =
        ap (λ b. not b || false)
          (subst (λ i. is_served i serving ≡ false) (sym (same_number w.id id e)) u)
    by_id false e = h

pub AllMarked-kept :
    (run id : ℕ) (serving : List (ℕ × ℕ)) (ws : List PooledWorker)
    → is_served id serving ≡ true
    → AllMarked serving ws
    → AllMarked ((run, id) ∷ served_without id serving) ws
AllMarked-kept run id serving [] u h = tt
AllMarked-kept run id serving (w ∷ ws) u (h, hs) =
    (by_id (id == w.id) refl, AllMarked-kept run id serving ws u hs)
  where
    by_id :
        (c : Bool)
        → (id == w.id) ≡ c
        → (not (c || is_served w.id (served_without id serving)) || w.busy) ≡ true
    by_id true e =
        let own : is_served w.id serving ≡ true =
          subst (λ i. is_served i serving ≡ true) (same_number id w.id e) u in
        rw own at h
    by_id false e = ground (arith, served_without-less id w.id serving)

pub AllMarked-remove_worker :
    (id : ℕ) (serving : List (ℕ × ℕ)) (ws : List PooledWorker)
    → AllMarked serving ws
    → AllMarked serving (remove_worker id ws)
AllMarked-remove_worker id serving [] h = tt
AllMarked-remove_worker id serving (w ∷ ws) (h, hs) =
    ground (arith, AllMarked-remove_worker id serving ws hs)

pub AllBelow-remove_worker :
    (id n : ℕ) (ws : List PooledWorker) → AllBelow n ws → AllBelow n (remove_worker id ws)
AllBelow-remove_worker id n [] h = tt
AllBelow-remove_worker id n (w ∷ ws) (h, hs) = ground (arith, AllBelow-remove_worker id n ws hs)

pub served_id-below :
    (id n : ℕ) (serving : List (ℕ × ℕ))
    → ServedBelow n serving
    → is_served id serving ≡ true
    → id < n
served_id-below id n [] b h = absurd (cc)
served_id-below id n ((run, worker) ∷ rest) (b, bs) h = ground (arith, served_id-below id n rest bs)
