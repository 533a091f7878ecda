-- ===== src/Jobs/ComputeLock/Exclusion.antt =====
-- While a lock is alive it belongs to the worker that took it.
use backtester.Prelude.{
  ℕ, ◌≤◌, String, List, [], ◌∷◌, Option, none, some, Bool, true, false, ◌&&◌, ◌≡◌, ◌⊎◌, refl, arith,
  inl, inr, Bool-cases, str_eq, eq_iff, eq_refl, if◌then◌else◌,
}
use mathlib.Core.Option
use backtester.OrderedMap.{get, set, delete, modify, keys, Distinct}
use backtester.OrderedMap.Laws.{
  get-set, get-modify, get-delete, Distinct-set, Distinct-delete, keys-modify,
}
use backtester.Jobs.Sweep.Laws.{
  IsKeyed, get-sweep_kept, sweep-Distinct, sweep-IsKeyed, delete-IsKeyed,
}
use backtester.Jobs.ComputeLock.{
  ComputeLock, Locks, is_alive, owned_by, led_by, acquire, renew, expire, release, sweep_expired,
  new_lock, created, extend_to, lock_key, lock_stamp,
}

pub data LockCall : Type 0 where
  acquires : (ci leader worker : String) (now ttl : ℕ) → LockCall
  renews expires : (ci worker : String) (at : ℕ) → LockCall
  releases : (ci worker leader : String) → LockCall
  sweeps : (now older_than limit : ℕ) → LockCall

unfoldable pub lock_step : Locks → LockCall → Locks
lock_step rows (acquires ci leader worker now ttl) = (acquire rows ci leader worker now ttl).0
lock_step rows (renews ci worker at) = renew rows ci worker at
lock_step rows (expires ci worker at) = expire rows ci worker at
lock_step rows (releases ci worker leader) = release rows ci worker leader
lock_step rows (sweeps now older_than limit) = (sweep_expired rows now older_than limit).0

unfoldable pub lock_run : Locks → List LockCall → Locks
lock_run rows [] = rows
lock_run rows (c ∷ cs) = lock_run (lock_step rows c) cs

-- A call of another worker, or of anybody's clean-up, no later than `until`. A worker may try to
-- take the lock again itself.
abbrev pub IsForeign : String → ℕ → LockCall → Type 0
IsForeign owner until (acquires ci leader worker now ttl) = now ≤ until
IsForeign owner until (renews ci worker at) = str_eq owner worker ≡ false
IsForeign owner until (expires ci worker at) = str_eq owner worker ≡ false
IsForeign owner until (releases ci worker leader) = str_eq owner worker ≡ false
IsForeign owner until (sweeps now older_than limit) = now ≤ until

-- Rows stand under their own identity, once.
pub record IsSound (rows : Locks) : Type 0 where
  pub keyed : IsKeyed lock_key lock_stamp rows
  pub distinct : Distinct (keys rows)

foreign_step-get :
    (rows : Locks) (c : LockCall) (k : String) (row : ComputeLock)
    → IsSound rows
    → get k rows ≡ some row
    → IsForeign row.lock_owner_worker_id row.lock_expires_at_ms c
    → get k (lock_step rows c) ≡ some row
unfolding lock_step acquire renew expire release sweep_expired
foreign_step-get rows (acquires ci leader worker now ttl) k row s held f = ground (
  arith,
  eq_iff ci k,
  get-set ci k (new_lock ci leader worker now ttl (created now (get ci rows))) rows,
)
foreign_step-get rows (renews ci worker at) k row s held f =
    ground (arith, eq_iff ci k, get-modify ci k (extend_to at) rows)
foreign_step-get rows (expires ci worker at) k row s held f =
    ground (arith, eq_iff ci k, get-modify ci k (extend_to at) rows)
foreign_step-get rows (releases ci worker leader) k row s held f =
    ground (arith, eq_iff ci k, get-delete ci k rows s.distinct)
foreign_step-get rows (sweeps now older_than limit) k row s held f =
    get-sweep_kept lock_key lock_stamp rows now older_than limit k row s.distinct s.keyed held
      (ground arith)

set-IsSound :
    (rows : Locks) (ci : String) (row : ComputeLock)
    → row.compute_identity ≡ ci
    → IsSound rows
    → IsSound (set ci row rows)
set-IsSound rows ci row same s = record {
  keyed = λ k r e. go k r (rw (get-set ci k row rows) at e);
  distinct = Distinct-set ci row rows s.distinct;
}
  where
    go :
        (k : String) (r : ComputeLock)
        → (if str_eq ci k then some row else get k rows) ≡ some r
        → r.compute_identity ≡ k
    go k r e = ground (arith, eq_iff ci k, s.keyed k r)

extend-IsSound :
    (rows : Locks) (ci : String) (at : ℕ) → IsSound rows → IsSound (modify ci (extend_to at) rows)
extend-IsSound rows ci at s = record {
  keyed = λ k r e. go k r (get k rows) refl (rw (get-modify ci k (extend_to at) rows) at e);
  distinct = rw (keys-modify ci (extend_to at) rows) s.distinct;
}
  where
    go :
        (k : String) (r : ComputeLock) (o : Option ComputeLock)
        → get k rows ≡ o
        → (if str_eq ci k then Option.map (extend_to at) (get k rows) else get k rows) ≡ some r
        → r.compute_identity ≡ k
    go k r none h e = absurd (ground arith)
    go k r (some old) h e = ground (arith, s.keyed k old)

delete-IsSound : (rows : Locks) (ci : String) → IsSound rows → IsSound (delete ci rows)
delete-IsSound rows ci s = record {
  keyed = delete-IsKeyed lock_key lock_stamp ci rows s.distinct s.keyed;
  distinct = Distinct-delete ci rows s.distinct;
}

if-IsSound : (b : Bool) (x y : Locks) → IsSound x → IsSound y → IsSound (if b then x else y)
if-IsSound true x y h k = h
if-IsSound false x y h k = k

acquire-IsSound :
    (rows : Locks) (ci leader worker : String) (now ttl : ℕ)
    → IsSound rows
    → IsSound (acquire rows ci leader worker now ttl).0
unfolding acquire
acquire-IsSound rows ci leader worker now ttl s = elim (Bool-cases (is_alive now (get ci rows))) [
  | inl alive ↦ rw (alive, acquire) s
  | inr free ↦
      rw (free, acquire)
        (set-IsSound rows ci (new_lock ci leader worker now ttl (created now (get ci rows))) refl s)
]

pub lock_step-IsSound : (rows : Locks) (c : LockCall) → IsSound rows → IsSound (lock_step rows c)
unfolding lock_step acquire renew expire release sweep_expired
lock_step-IsSound rows (acquires ci leader worker now ttl) s =
    acquire-IsSound rows ci leader worker now ttl s
lock_step-IsSound rows (renews ci worker at) s =
    if-IsSound (owned_by worker (get ci rows)) _ _ (extend-IsSound rows ci at s) s
lock_step-IsSound rows (expires ci worker at) s =
    if-IsSound (owned_by worker (get ci rows)) _ _ (extend-IsSound rows ci at s) s
lock_step-IsSound rows (releases ci worker leader) s =
    if-IsSound (owned_by worker (get ci rows) && led_by leader (get ci rows)) _ _
      (delete-IsSound rows ci s) s
lock_step-IsSound rows (sweeps now older_than limit) s = record {
  keyed = sweep-IsKeyed lock_key lock_stamp rows now older_than limit s.distinct s.keyed;
  distinct = sweep-Distinct lock_key lock_stamp rows now older_than limit s.distinct;
}

abbrev pub AllForeign : String → ℕ → List LockCall → Type 0
AllForeign owner until [] = Unit {0}
AllForeign owner until (c ∷ cs) = IsForeign owner until c × AllForeign owner until cs

-- While no time later than a lock's expiry is passed, no sequence of calls of other workers, of
-- attempts to acquire by anybody and of clean-ups changes the lock.
pub lock_run-exclusion :
    (rows : Locks) (cs : List LockCall) (k : String) (row : ComputeLock)
    → IsSound rows
    → get k rows ≡ some row
    → AllForeign row.lock_owner_worker_id row.lock_expires_at_ms cs
    → get k (lock_run rows cs) ≡ some row
unfolding lock_run
lock_run-exclusion rows [] k row s held f = held
lock_run-exclusion rows (c ∷ cs) k row s held (f, fs) =
    lock_run-exclusion (lock_step rows c) cs k row (lock_step-IsSound rows c s)
      (foreign_step-get rows c k row s held f) fs

-- `acquire` wins exactly when there is no lock that has not expired. If it wins, the caller owns
-- the lock up to its time to live, and the time of creation is that of the lock before it, if any;
-- if it loses, nothing changes.
pub acquire_iff :
    (rows : Locks) (ci leader worker : String) (now ttl : ℕ)
    → let r = acquire rows ci leader worker now ttl in
      ((is_alive now (get ci rows) ≡ true) × (r ≡ (rows, false)))
      ⊎ ((is_alive now (get ci rows) ≡ false)
          × (r.1 ≡ true)
          × (get ci r.0 ≡ some (new_lock ci leader worker now ttl (created now (get ci rows)))))
unfolding acquire
acquire_iff rows ci leader worker now ttl = elim (Bool-cases (is_alive now (get ci rows))) [
  | inl alive ↦ inl (alive, rw (alive, acquire))
  | inr free ↦ inr (
    free,
    rw (free, acquire),
    rw (
      free,
      acquire,
      get-set ci ci (new_lock ci leader worker now ttl (created now (get ci rows))) rows,
      eq_refl ci,
    ),
  )
]
