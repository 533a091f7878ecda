-- ===== src/Jobs/Wake/Laws.antt =====
-- The wake step only moves rows along the lifecycle, and respects a living lock.
use backtester.Prelude.{
  ℕ, String, List, [], ◌∷◌, Option, none, some, true, false, ◌≡◌, refl, ap, ◌∙◌, sym, inl, inr,
  Option-cases, Bool-cases, str_eq, eq_iff, All,
}
use backtester.OrderedMap.{OrderedMap, get}
use backtester.Jobs.Lifecycle.{failed, run, waiting_for_compute}
use backtester.Jobs.Store.{failure}
use backtester.Jobs.Store.Moves.{transition-Moved}
use backtester.Jobs.Store.Reap.Loop.{Moved-Skips}
use backtester.Jobs.Row.{JobRow, cache_ready}
use backtester.Jobs.ResultCache.{lookup}
use backtester.Jobs.ComputeLock.{is_alive}
use backtester.Jobs.Store.{
  Store, poison_compute_waiter, elect_one_compute_waiter, list_compute_waiters,
}
use backtester.Jobs.Store.Evolution.{Evolves, Evolves-refl, Evolves-trans}
use backtester.Jobs.Store.Moves.{
  poison_compute_waiter-Evolves, release_all_compute_waiters-Evolves,
  elect_one_compute_waiter-Evolves,
}
use backtester.Jobs.Wake.{
  WakeDeps, is_exhausted, poison_group, wake_live, live_waiters, wake_group, wake_groups, counted,
  wake_compute_waiters, wake_reason, group_waiters,
}

poison_group-Evolves :
    (st : Store) (cap now : ℕ) (ws : List JobRow) → Evolves st (poison_group st cap now ws).0
unfolding poison_group
poison_group-Evolves st cap now [] = Evolves-refl st
poison_group-Evolves st cap now (w ∷ ws) =
    let st' = (poison_compute_waiter st w.run_id now).0 in
    let ih = poison_group-Evolves st' cap now ws in
    let skipped = poison_group-Evolves st cap now ws in
    elim (Bool-cases (is_exhausted cap w)) [
      | inl gone ↦ rw gone (
          Evolves-trans st st' (poison_group st' cap now ws).0
            (poison_compute_waiter-Evolves st w.run_id now) ih)
      | inr kept ↦ rw kept skipped
    ]

counted-Evolves :
    (st : Store) (r : Store × Option JobRow) → Evolves st r.0 → Evolves st (counted r).0
counted-Evolves st (st', none) h = h
counted-Evolves st (st', some row) h = h

wake_live-Evolves : (d : WakeDeps) (st : Store) (ci : String) → Evolves st (wake_live d st ci).0
unfolding wake_live
wake_live-Evolves d st ci = elim (Option-cases (lookup d.cache ci)) [
  | inr (entry, hit) ↦
      rw (hit, wake_live) (release_all_compute_waiters-Evolves st ci cache_ready d.now)
  | inl miss ↦ elim (Bool-cases (is_alive d.now (get ci d.locks))) [
    | inl alive ↦ rw (miss, wake_live, alive) (Evolves-refl st)
    | inr dead ↦
        rw (miss, wake_live, dead)
          (counted-Evolves st
            (elect_one_compute_waiter st ci (wake_reason st (get ci d.locks)) d.now)
            (elect_one_compute_waiter-Evolves st ci (wake_reason st (get ci d.locks)) d.now))
  ]
]

-- The two ends of a group: nobody of it is left alive, or the live ones are treated.
abbrev settle : WakeDeps → Store × List JobRow → String → List JobRow → Store × ℕ × List JobRow
settle d (st, rows) ci [] = (st, 0, rows)
settle d (st, rows) ci (_ ∷ _) = let (st', n) = wake_live d st ci in (st', n, rows)

wake_group-settle :
    (d : WakeDeps) (st : Store) (ci : String) (group : List JobRow)
    → wake_group d st ci group
      ≡ settle d
          (poison_group st d.compute_wait_max_attempts d.now group)
          ci
          (live_waiters d.compute_wait_max_attempts group)
unfolding wake_group
wake_group-settle d st ci group = go (live_waiters d.compute_wait_max_attempts group) refl
  where
    go :
        (live : List JobRow)
        → live_waiters d.compute_wait_max_attempts group ≡ live
        → wake_group d st ci group
          ≡ settle d
              (poison_group st d.compute_wait_max_attempts d.now group)
              ci
              (live_waiters d.compute_wait_max_attempts group)
    go [] e = rw (e, wake_group) refl
    go (_ ∷ _) e = rw (e, wake_group) refl

settle-Evolves :
    (d : WakeDeps) (st st' : Store) (rows : List JobRow) (ci : String) (live : List JobRow)
    → Evolves st st'
    → Evolves st (settle d (st', rows) ci live).0
settle-Evolves d st st' rows ci [] h = h
settle-Evolves d st st' rows ci (_ ∷ _) h =
    Evolves-trans st st' (wake_live d st' ci).0 h (wake_live-Evolves d st' ci)

wake_group-Evolves :
    (d : WakeDeps) (st : Store) (ci : String) (group : List JobRow)
    → Evolves st (wake_group d st ci group).0
wake_group-Evolves d st ci group = rw (wake_group-settle d st ci group) (
    settle-Evolves d st _ _ ci (live_waiters d.compute_wait_max_attempts group)
      (poison_group-Evolves st d.compute_wait_max_attempts d.now group))

wake_groups-Evolves :
    (d : WakeDeps) (st : Store) (groups : OrderedMap (List JobRow))
    → Evolves st (wake_groups d st groups).0
unfolding wake_groups
wake_groups-Evolves d st [] = Evolves-refl st
wake_groups-Evolves d st ((ci, group) ∷ groups) =
    let st' = (wake_group d st ci group).0 in
    Evolves-trans st st' (wake_groups d st' groups).0 (wake_group-Evolves d st ci group)
      (wake_groups-Evolves d st' groups)

pub wake_compute_waiters-Evolves :
    (d : WakeDeps) (st : Store) → Evolves st (wake_compute_waiters d st).0
unfolding wake_compute_waiters
wake_compute_waiters-Evolves d st =
    wake_groups-Evolves d st (group_waiters (list_compute_waiters st) [])

poison_skips :
    (st : Store) (id k : String) (now : ℕ)
    → str_eq id k ≡ false
    → get k (poison_compute_waiter st id now).0.jobs ≡ get k st.jobs
unfolding poison_compute_waiter
poison_skips st id k now other =
    (Moved-Skips k st id waiting_for_compute (run failed) _ _ other (
      transition-Moved st id waiting_for_compute (run failed) (failure now "compute_wait_exhausted")
        none)).same

-- Every exhausted waiter of a group is another row than `k`.
abbrev Spares : ℕ → String → List JobRow → Type 0
Spares cap k [] = Unit {0}
Spares cap k (w ∷ ws) = (is_exhausted cap w ≡ true → str_eq w.run_id k ≡ false) × Spares cap k ws

poison_group-Spares :
    (st : Store) (cap now : ℕ) (k : String) (ws : List JobRow)
    → Spares cap k ws
    → get k (poison_group st cap now ws).0.jobs ≡ get k st.jobs
unfolding poison_group
poison_group-Spares st cap now k [] s = refl
poison_group-Spares st cap now k (w ∷ ws) (h, s) =
    let st' = (poison_compute_waiter st w.run_id now).0 in
    let ih = poison_group-Spares st' cap now k ws s in
    let skipped = poison_group-Spares st cap now k ws s in
    elim (Bool-cases (is_exhausted cap w)) [
      | inl gone ↦ rw gone (ih ∙ poison_skips st w.run_id k now (h gone))
      | inr kept ↦ rw kept skipped
    ]

held-Spares :
    (st : Store) (cap : ℕ) (k : String) (job : JobRow) (ws : List JobRow)
    → get k st.jobs ≡ some job
    → is_exhausted cap job ≡ false
    → All (λ (w : JobRow). get w.run_id st.jobs ≡ some w) ws
    → Spares cap k ws
held-Spares st cap k job [] held live h = tt
held-Spares st cap k job (w ∷ ws) held live (e, h) =
    (λ gone. elsewhere gone, held-Spares st cap k job ws held live h)
  where
    elsewhere : is_exhausted cap w ≡ true → str_eq w.run_id k ≡ false
    elsewhere gone = elim (Bool-cases (str_eq w.run_id k)) [
      | inr other ↦ other
      | inl same ↦
          let wj : some w ≡ some job =
            sym e ∙ ap (λ x. get x st.jobs) ((eq_iff w.run_id k).0 same) ∙ held in
          let row : w ≡ job = cc in absurd (cc (gone, live, ap (is_exhausted cap) row))
    ]

wake_live_alive :
    (d : WakeDeps) (st : Store) (ci : String)
    → lookup d.cache ci ≡ none
    → is_alive d.now (get ci d.locks) ≡ true
    → wake_live d st ci ≡ (st, 0)
unfolding wake_live
wake_live_alive d st ci miss alive = rw (miss, wake_live, alive)

settle_alive :
    (d : WakeDeps) (r : Store × List JobRow) (ci : String) (live : List JobRow)
    → lookup d.cache ci ≡ none
    → is_alive d.now (get ci d.locks) ≡ true
    → settle d r ci live ≡ (r.0, 0, r.1)
settle_alive d (st, rows) ci [] miss alive = refl
settle_alive d (st, rows) ci (_ ∷ _) miss alive = rw (wake_live_alive d st ci miss alive)

-- While a result is not cached and the lock of its computation is alive, waking a group of waiters
-- of the store releases nobody, and leaves every row with waits to spare as it is.
pub wake_group_alive :
    (d : WakeDeps) (st : Store) (ci : String) (group : List JobRow) (k : String) (job : JobRow)
    → lookup d.cache ci ≡ none
    → is_alive d.now (get ci d.locks) ≡ true
    → All (λ (w : JobRow). get w.run_id st.jobs ≡ some w) group
    → get k st.jobs ≡ some job
    → is_exhausted d.compute_wait_max_attempts job ≡ false
    → ((wake_group d st ci group).1 ≡ 0) × (get k (wake_group d st ci group).0.jobs ≡ some job)
wake_group_alive d st ci group k job miss alive members held spare =
    let cap = d.compute_wait_max_attempts in
    rw
      (
        wake_group-settle d st ci group,
        settle_alive d (poison_group st cap d.now group) ci (live_waiters cap group) miss alive,
      )
      (
        refl,
        poison_group-Spares st cap d.now k group (held-Spares st cap k job group held spare members)
            ∙ held,
      )
