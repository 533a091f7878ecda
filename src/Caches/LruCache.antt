-- ===== src/Caches/LruCache.antt =====
-- packages/sdk/src/internal/lru-cache.ts: `LruCache`. The first key is the least recently used. The
-- keys are texts, as for the bundles it keeps.
use backtester.Prelude.{Bool, ℕ, String, [], ◌∷◌, Option, none, some, ltb, if◌then◌else◌, length}
use backtester.OrderedMap.{OrderedMap, get, set, has, delete}

pub record LruCache (V : Type 0) : Type 0 where
  pub capacity : ℕ
  pub entries : OrderedMap V

module _ {V : Type 0} where
  -- `none` stands for the error on a capacity below one.
  unfoldable pub new_lru_cache : ℕ → Option (LruCache V)
  new_lru_cache capacity =
      if ltb capacity 1 then none else some (record { capacity = capacity; entries = [] })

  abbrev pub promoted : LruCache V → String → Option V → LruCache V × Option V
  promoted c key none = (c, none)
  promoted c key (some value) =
      (record c { entries = set key value (delete key c.entries) }, some value)

  unfoldable pub lru_get : LruCache V → String → LruCache V × Option V
  lru_get c key = promoted c key (get key c.entries)

  -- `this.map.delete(this.map.keys().next().value)`.
  abbrev pub delete_first : OrderedMap V → OrderedMap V
  delete_first [] = []
  delete_first ((k, v) ∷ m) = delete k ((k, v) ∷ m)

  abbrev pub refreshed : OrderedMap V → String → V → OrderedMap V
  refreshed m key value = set key value (if has key m then delete key m else m)

  unfoldable pub lru_set : LruCache V → String → V → LruCache V
  lru_set c key value =
      let m = refreshed c.entries key value in
      record c { entries = if ltb c.capacity (length m) then delete_first m else m }

  unfoldable pub size : LruCache V → ℕ
  size c = length c.entries

  unfoldable pub lru_has : LruCache V → String → Bool
  lru_has c key = has key c.entries
