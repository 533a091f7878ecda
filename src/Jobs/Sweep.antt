-- ===== src/Jobs/Sweep.antt =====
-- The bounded clean-up that compute-lock.ts and result-cache.ts share in form: delete at most
-- `batchLimit` rows whose stamp is older than `nowMs - olderThanMs`, oldest first.
pub mod Laws
use backtester.Prelude.{ℕ, ◌+◌, String, List, [], ◌∷◌, Bool, ltb, filter, sort, take, length}
use backtester.OrderedMap.{OrderedMap, values, delete}

module _ {ℓ} {V : Type ℓ} (key : V → String) (stamp : V → ℕ) where
  -- `stamp < nowMs - olderThanMs`, where the difference may fall below zero.
  abbrev pub is_old : ℕ → ℕ → V → Bool
  is_old now older_than r = ltb (stamp r + older_than) now

  abbrev pub expired_batch : OrderedMap V → ℕ → ℕ → ℕ → List V
  expired_batch rows now older_than limit =
      take limit
        (sort (λ a b. ltb (stamp a) (stamp b)) (filter (is_old now older_than) (values rows)))

  abbrev pub delete_all : List V → OrderedMap V → OrderedMap V
  delete_all [] rows = rows
  delete_all (r ∷ rs) rows = delete_all rs (delete (key r) rows)

  unfoldable pub sweep : OrderedMap V → ℕ → ℕ → ℕ → OrderedMap V × ℕ
  sweep rows now older_than limit =
      let batch = expired_batch rows now older_than limit in (delete_all batch rows, length batch)
