-- ===== src/Caches/TapeCache.antt =====
-- data/tape-cache.ts: `TapeCache`. The last key is the next to be evicted: a hit moves its entry to
-- the front, a new build goes to the back. A build is a promise, told from others by its number; its
-- rejection is a step of its own. A build that throws at once or calls the cache is not modelled.
use Prim.Native.String
use backtester.Prelude.{
  get_or, sort, str_ltb, ℕ, ◌+◌, String, List, [], ◌∷◌, Option, none, some, Bool, false, leb, ◌==◌,
  if◌then◌else◌, length,
}
use backtester.OrderedMap.{OrderedMap, get, set, delete, keys}

pub record TapeCache : Type 0 where
  pub max_entries : ℕ
  pub entries : OrderedMap ℕ
  pub hits : ℕ
  pub misses : ℕ

-- The other entries go into a new map behind the one that was hit.
abbrev pub copied : OrderedMap ℕ → OrderedMap ℕ → OrderedMap ℕ
copied promoted [] = promoted
copied promoted ((k, v) ∷ m) = copied (set k v promoted) m

abbrev pub last_key : List String → Option String
last_key [] = none
last_key (k ∷ []) = some k
last_key (k ∷ j ∷ ks) = last_key (j ∷ ks)

abbrev pub delete_key : Option String → OrderedMap ℕ → OrderedMap ℕ
delete_key none m = m
delete_key (some k) m = delete k m

abbrev pub evicted : ℕ → OrderedMap ℕ → OrderedMap ℕ
evicted max m = if leb max (length m) then delete_key (last_key (keys m)) m else m

abbrev pub get_or_insert : TapeCache → String → ℕ → Option ℕ → TapeCache × ℕ
get_or_insert c key pending (some existing) = (
  record c { hits = c.hits + 1; entries = copied (set key existing []) (delete key c.entries) },
  existing,
)
get_or_insert c key pending none = (
  record c { misses = c.misses + 1; entries = set key pending (evicted c.max_entries c.entries) },
  pending,
)

-- `pending` is the promise that `build` makes if it is called. A maximum below one is 0.
unfoldable pub get_or_build : TapeCache → String → ℕ → TapeCache × ℕ
get_or_build c key pending =
    if leb c.max_entries 0
    then (record c { misses = c.misses + 1 }, pending)
    else get_or_insert c key pending (get key c.entries)

abbrev holds : ℕ → Option ℕ → Bool
holds pending none = false
holds pending (some p) = p == pending

-- What is done when the promise is rejected.
unfoldable pub on_rejected : TapeCache → String → ℕ → TapeCache
on_rejected c key pending =
    if holds pending (get key c.entries) then record c { entries = delete key c.entries } else c

unfoldable pub clear : TapeCache → TapeCache
clear c = record c { entries = [] }

pub record TapeCacheStats : Type 0 where
  pub hits : ℕ
  pub misses : ℕ
  pub size : ℕ

unfoldable pub stats : TapeCache → TapeCacheStats
stats c = record { hits = c.hits; misses = c.misses; size = length c.entries }

-- `Array.prototype.join`.
abbrev join : String → List String → String
join separator [] = ""
join separator (s ∷ []) = s
join separator (s ∷ t ∷ ss) = String.◌++◌ s (String.◌++◌ separator (join separator (t ∷ ss)))

-- What a tape is made of; bounds are texts or numbers, both by their text.
pub record TapeParts : Type 0 where
  pub dataset_ref : String
  pub symbols : List String
  pub from : String
  pub to : String
  pub timeframe : Option String

unfoldable pub tape_cache_key : TapeParts → String
tape_cache_key parts = join "|" (
    parts.dataset_ref
    ∷ get_or parts.timeframe ""
    ∷ parts.from
    ∷ parts.to
    ∷ join "," (sort str_ltb parts.symbols)
    ∷ [])
