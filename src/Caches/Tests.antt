-- ===== src/Caches/Tests.antt =====
-- The theorems on the caches at concrete inputs.
use backtester.Prelude.{ℕ, ◌≤◌, [], ◌∷◌, ◌++◌, ◌≡◌, refl, arith, length, ltb, if◌then◌else◌}
use backtester.OrderedMap.{delete, keys}
use backtester.Caches.LruCache.{LruCache, lru_set}
use backtester.Caches.TapeCache.{TapeCache, get_or_build, on_rejected}
use backtester.Caches.Bounds.{tail, lru_set-order, get_or_build-bounded, get_or_build_shares}

abbrev bundles : LruCache ℕ
bundles = record { capacity = 2; entries = ("a", 1) ∷ ("b", 2) ∷ [] }

lru_set-order_example :
    let used = delete "c" bundles.entries ++ ("c", 3) ∷ [] in
    (lru_set bundles "c" 3).entries ≡ (if ltb 2 (length used) then tail used else used)
unfolding keys
lru_set-order_example = lru_set-order bundles "c" 3 ((refl, tt), (tt, tt))

abbrev tapes : TapeCache
tapes = record { max_entries = 2; entries = ("a", 1) ∷ ("b", 2) ∷ []; hits = 0; misses = 2 }

get_or_build-bounded_example : length (get_or_build tapes "c" 3).0.entries ≤ 2
get_or_build-bounded_example = get_or_build-bounded tapes "c" 3 (omega arith)

get_or_build_shares_example :
    let (c', promise) = get_or_build tapes "c" 3 in
    ((get_or_build c' "c" 4).1 ≡ promise)
    × ((get_or_build (on_rejected c' "c" promise) "c" 4).1 ≡ 4)
unfolding keys
get_or_build_shares_example = get_or_build_shares tapes "c" 3 4 (omega arith) ((refl, tt), (tt, tt))
